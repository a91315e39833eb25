-- ===== src/Ooxml/Office/Parts.antt =====
-- The sizes of the parts of a container: the reads of `extract` in
-- crates/renderer-ooxml/src/text.rs.
use doc_bunker.Prelude.{
  ℕ, ◌+◌, ◌≤◌, ◌≡◌, refl, ap, length-append, Bool, true, false, Option, none, some, List, [], ◌∷◌,
  ◌++◌, arith, if◌then◌else◌, Result, ok, ok_or, ◌>>=◌, >>=-Between, Text, length, All, All-append,
  get_elem?,
}
use mathlib.Core.Path.{subst}
use doc_bunker.RendererApi.Error.{RenderError, invalid_document}
use doc_bunker.Ooxml.Container.{IsCapped, total_len}
use doc_bunker.Ooxml.Archive.{
  Member, Archive, openable, by_index, max_total_uncompressed, read_entry_bounded_total,
}
use doc_bunker.Ooxml.Archive.Totals.{read_member-IsRead}
use doc_bunker.Ooxml.Markup.{XmlEvent, extract_part_xml}
use doc_bunker.Ooxml.Markup.Lines.{extract_part_xml-AreCapped}
use doc_bunker.Ooxml.Sheet.{extract_rows}
use doc_bunker.Ooxml.Members.{max_embedded_media_bytes}
use doc_bunker.Ooxml.Office.{
  Reading, read_part, read_page, read_document, read_slides, read_shared, table_at, charge_media,
  read_media,
}

no_lines : IsCapped []
unfolding total_len
no_lines = record { bytes = omega arith; count = omega arith }

-- How much decompressing the member at an index yields, and those at several.
unfoldable pub content_len : Option Member → ℕ
content_len none = 0
content_len (some m) = elim m.content [ none ↦ 0 | some bytes ↦ length bytes ]

unfoldable pub content_size : Archive → List ℕ → ℕ
content_size archive [] = 0
content_size archive (index ∷ indices) =
    content_len (get_elem? archive index) + content_size archive indices

abbrev pub to_list : Option ℕ → List ℕ
to_list none = []
to_list (some n) = n ∷ []

-- A member that is read: it is charged with all that it yields.
record IsCharged (archive : Archive) (index total next : ℕ) (bytes : List ℕ) : Type 0 where
  sum : next ≡ total + content_size archive (index ∷ [])
  bounded : next ≤ max_total_uncompressed

content_len-some :
    (m : Member) (bytes : List ℕ) → m.content ≡ some bytes → content_len (some m) ≡ length bytes
unfolding content_len
content_len-some m bytes e = rw e refl

read_entry-IsCharged :
    (archive : Archive) (index total : ℕ) (bytes : List ℕ) (next : ℕ)
    → read_entry_bounded_total archive index total ≡ ok (bytes, next)
    → IsCharged archive index total next bytes
unfolding read_entry_bounded_total by_index content_size
read_entry-IsCharged archive index total bytes next e =
    let (m, found, e1) = >>=-Between (by_index archive index) _ e in
    let read = read_member-IsRead m total bytes next e1 in
    let there = at_index m (get_elem? archive index) found in
    record {
      sum =
          let len = ap content_len there in
          let whole = content_len-some m bytes read.content in
          let sum = read.sum in omega (arith, len, whole, sum);
      bounded = read.bounded;
    }
  where
    at_index :
        (m : Member) (o : Option Member)
        → (ok_or invalid_document o >>= λ q. openable q >>= λ u. ok q) ≡ ok m
        → o ≡ some m
    at_index m none q = absurd (cc)
    at_index m (some k) q = let (_, _, same) = >>=-Between (openable k) _ q in ground arith

-- The bytes of the media in all.
unfoldable pub media_size : List (List ℕ) → ℕ
media_size [] = 0
media_size (bytes ∷ media) = length bytes + media_size media

unfoldable pub slide_indices : List (ℕ × ℕ) → List ℕ
slide_indices [] = []
slide_indices ((number, index) ∷ slides) = index ∷ slide_indices slides

module _ (xml : List ℕ → List XmlEvent) (archive : Archive) where
  pub record IsReading (r : Reading) : Type 0 where
    pub pages : All IsCapped r.pages
    pub total : r.extracted_total ≤ max_total_uncompressed

  -- One page for each of the members, all of which were charged.
  pub record Took (indices : List ℕ) (r r' : Reading) : Type 0 where
    pub count : length r'.pages ≡ length r.pages + length indices
    pub charged : r'.extracted_total ≡ r.extracted_total + content_size archive indices
    pub valid : IsReading r'

  no_members-Took : (r : Reading) → IsReading r → Took [] r r
  unfolding content_size
  no_members-Took r v = record { count = omega arith; charged = omega arith; valid = v }

  read_part_lem :
      (index : ℕ) (truncated : Bool) (total : ℕ) (lines : List Text) (t : Bool) (next : ℕ)
      → read_part xml archive index truncated total ≡ ok (lines, t, next)
      → IsCapped lines
        × (next ≤ max_total_uncompressed)
        × (next ≡ total + content_size archive (index ∷ []))
  unfolding read_part
  read_part_lem index truncated total lines t next e =
      let ((bytes, n), read, e1) = >>=-Between (read_entry_bounded_total archive index total) _ e in
      let ((ls, t'), extracted, e2) =
        >>=-Between (extract_part_xml (xml bytes) [] truncated) _ e1 in
      let capped : IsCapped ls =
        rw extracted at (extract_part_xml-AreCapped (xml bytes) [] truncated no_lines) in
      let same : ls ≡ lines = ground arith in
      let same' : n ≡ next = ground arith in
      let charged = read_entry-IsCharged archive index total bytes n read in
      (rw (← same) capped, rw (← same') charged.bounded, rw (← same') charged.sum)

  read_page-Took :
      (index : ℕ) (r r' : Reading)
      → read_page xml archive index r ≡ ok r'
      → IsReading r
      → Took (index ∷ []) r r'
  unfolding read_page
  read_page-Took index r r' e v =
      let ((lines, t, n), read, e1) =
        >>=-Between (read_part xml archive index r.truncated r.extracted_total) _ e in
      let (capped, bounded, sum) =
        read_part_lem index r.truncated r.extracted_total lines t n read in
      let same : ◌≡◌ {A = Reading}
          (record { pages = r.pages ++ lines ∷ []; truncated = t; extracted_total = n }) r' =
        ground arith in
      subst (Took (index ∷ []) r) same (record {
        count = length-append r.pages (lines ∷ []);
        charged = sum;
        valid = record {
          pages = All-append IsCapped r.pages (lines ∷ []) v.pages (capped, tt);
          total = bounded;
        };
      })

  more_members-Took :
      (index : ℕ) (indices : List ℕ) (r q r' : Reading)
      → Took (index ∷ []) r q
      → Took indices q r'
      → Took (index ∷ indices) r r'
  unfolding content_size
  more_members-Took index indices r q r' a b = record {
    count = let h = a.count in let k = b.count in omega arith;
    charged = let h = a.charged in let k = b.charged in omega arith;
    valid = b.valid;
  }

  pub read_document-Took :
      (o : Option ℕ) (r r' : Reading)
      → read_document xml archive o r ≡ ok r'
      → IsReading r
      → Took (to_list o) r r'
  unfolding read_document
  read_document-Took none r r' e v =
      let same : r ≡ r' = ground arith in subst (Took [] r) same (no_members-Took r v)
  read_document-Took (some index) r r' e v = read_page-Took index r r' e v

  -- The slides that were read are the first ones.
  abbrev pub TookFront : List ℕ → Reading → Reading → Type 0
  TookFront indices r r' =
      (front : List ℕ) × (rest : List ℕ) × (front ++ rest ≡ indices) × Took front r r'

  pub read_slides-TookFront :
      (slides : List (ℕ × ℕ)) (r r' : Reading)
      → read_slides xml archive slides r ≡ ok r'
      → IsReading r
      → TookFront (slide_indices slides) r r'
  unfolding read_slides slide_indices
  read_slides-TookFront [] r r' e v =
      let same : r ≡ r' = ground arith in
      ([], [], refl, subst (Took [] r) same (no_members-Took r v))
  read_slides-TookFront ((number, index) ∷ slides) r r' e v =
      go (λ q rest w. read_slides-TookFront slides q r' rest w) r.truncated e
    where
      next : Result RenderError Reading
      next = read_page xml archive index r >>= λ q. read_slides xml archive slides q

      go :
          ((q : Reading)
            → read_slides xml archive slides q ≡ ok r'
            → IsReading q
            → TookFront (slide_indices slides) q r')
          → (b : Bool) → (if b then ok r else next) ≡ ok r'
          → TookFront (index ∷ slide_indices slides) r r'
      go again true e =
          let same : r ≡ r' = ground arith in
          ([], index ∷ slide_indices slides, refl, subst (Took [] r) same (no_members-Took r v))
      go again false e =
          let (q, page, rest) = >>=-Between (read_page xml archive index r) _ e in
          let took = read_page-Took index r q page v in
          let (front, left, split, others) = again q rest took.valid in
          (
            index ∷ front,
            left,
            ap (λ l. index ∷ l) split,
            more_members-Took index front r q r' took others,
          )

  pub read_shared_lem :
      (o : Option ℕ) (r : Reading) (lines : List Text) (t : Bool) (next : ℕ)
      → read_shared xml archive o r ≡ ok (lines, t, next)
      → IsReading r
      → (next ≤ max_total_uncompressed)
        × (next ≡ r.extracted_total + content_size archive (to_list o))
  unfolding read_shared content_size
  read_shared_lem none r lines t next e v =
      let h = v.total in
      let same : r.extracted_total ≡ next = ground arith in (omega arith, omega arith)
  read_shared_lem (some index) r lines t next e v =
      let (capped, bounded, sum) =
        read_part_lem index r.truncated r.extracted_total lines t next e in
      (bounded, sum)

  pub table_at_lem :
      (o : Option ℕ) (shared : List Text) (total : ℕ) (table : Option (List (List Text))) (next : ℕ)
      → table_at xml archive o shared total ≡ ok (table, next)
      → total ≤ max_total_uncompressed
      → (next ≤ max_total_uncompressed) × (next ≡ total + content_size archive (to_list o))
  unfolding table_at content_size
  table_at_lem none shared total table next e h =
      let same : total ≡ next = ground arith in (omega arith, omega arith)
  table_at_lem (some index) shared total table next e h =
      let ((bytes, n), read, e1) = >>=-Between (read_entry_bounded_total archive index total) _ e in
      let (t, _, e2) = >>=-Between (extract_rows shared (xml bytes)) _ e1 in
      let same : n ≡ next = ground arith in
      let charged = read_entry-IsCharged archive index total bytes n read in
      (rw (← same) charged.bounded, rw (← same) charged.sum)

  -- Within the cap on media and the cap on the whole, with every member charged.
  abbrev pub MediaWithin : List ℕ → ℕ → ℕ → List (List ℕ) → ℕ → Type 0
  MediaWithin indices actual total media last =
      (length media ≡ length indices)
      × (actual + media_size media ≤ max_embedded_media_bytes)
      × (last ≤ max_total_uncompressed)
      × (last ≡ total + content_size archive indices)

  charge_media_lem :
      (actual size sum : ℕ)
      → charge_media xml archive actual size ≡ ok sum
      → (sum ≡ actual + size) × (sum ≤ max_embedded_media_bytes)
  unfolding charge_media
  charge_media_lem actual size sum e = ground arith

  media_step :
      (indices : List ℕ) (index actual sum total next : ℕ) (bytes : List ℕ)
      (others media : List (List ℕ)) (z last : ℕ)
      → ◌≡◌ {A = Result RenderError (List (List ℕ) × ℕ)} (ok (bytes ∷ others, z)) (ok (media, last))
      → sum ≡ actual + length bytes
      → next ≡ total + content_size archive (index ∷ [])
      → MediaWithin indices sum next others z
      → MediaWithin (index ∷ indices) actual total media last
  unfolding media_size content_size
  media_step indices index actual sum total next bytes others media z last e added charged
        (len, size, bounded, rest) =
      let same : bytes ∷ others ≡ media = cc in
      let same' : z ≡ last = cc in
      let within : MediaWithin (index ∷ indices) actual total (bytes ∷ others) z =
        (omega (arith, len), omega (arith, added), bounded, omega (arith, charged, rest)) in
      subst (λ q. MediaWithin (index ∷ indices) actual total media q) same'
        (subst (λ q. MediaWithin (index ∷ indices) actual total q z) same within)

  pub read_media-MediaWithin :
      (indices : List ℕ) (actual total : ℕ) (media : List (List ℕ)) (last : ℕ)
      → read_media xml archive indices actual total ≡ ok (media, last)
      → actual ≤ max_embedded_media_bytes
      → total ≤ max_total_uncompressed
      → MediaWithin indices actual total media last
  unfolding read_media media_size content_size
  read_media-MediaWithin [] actual total media last e h k = ground arith
  read_media-MediaWithin (index ∷ indices) actual total media last e h k =
      let ((bytes, n), read, e1) = >>=-Between (read_entry_bounded_total archive index total) _ e in
      let (sum, added, e2) = >>=-Between (charge_media xml archive actual (length bytes)) _ e1 in
      let ((others, z), rest, e3) = >>=-Between (read_media xml archive indices sum n) _ e2 in
      let (added', capped) = charge_media_lem actual (length bytes) sum added in
      let charged = read_entry-IsCharged archive index total bytes n read in
      media_step indices index actual sum total n bytes others media z last e3 added' charged.sum
        (read_media-MediaWithin indices sum n others z rest capped charged.bounded)
