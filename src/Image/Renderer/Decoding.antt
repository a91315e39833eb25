-- ===== src/Image/Renderer/Decoding.antt =====
-- What `open_image` takes over from the decoders.
use doc_bunker.Prelude.{
  ℕ, zero, suc, ◌*◌, ◌≤◌, ◌<◌, ◌≡◌, refl, Option, none, some, List, ◌∷◌, arith, Result-cases, inl,
  inr, ok, ◌>>=◌, ◌>>◌, ok_or, length, replicate, length-replicate, All, usize_max,
}
use doc_bunker.RendererApi.Limits.{
  pixel_buffer_size, pixel_buffer_size_lem, IsTarget, validate_document_size,
}
use doc_bunker.RendererApi.Error.{rendering_failed, invalid_document}
use doc_bunker.RendererApi.Types.{DocumentFormat, unknown, png, jpeg, webp, gif, tiff, bmp}
use doc_bunker.RendererApi.Detect.{detect}
use doc_bunker.Image.Renderer.{
  RgbaImage, ImageRenderer, ImageFormat, Decoders, ColorType, rgb, rgba, other, zip_pixels, to_rgba,
  validate_dims, png_bpp, gif_format, tiff_format, bmp_format, check_decoded, decode_png,
  decode_jpeg, decode_webp, decode_image_format, decode, open_image,
}

abbrev pub AreBytes : List ℕ → Type 0
AreBytes = All (λ (b : ℕ). b < 256)

pub record IsImage (i : RgbaImage) : Type 0 where
  pub target : IsTarget i.width i.height
  pub filled : length i.bytes ≡ i.width * i.height * 4
  pub values : AreBytes i.bytes

-- The packages return bytes.
pub record ReturnBytes (d : Decoders) : Type 0 where
  pub png_bytes : (s p : List ℕ) → d.png_frame s ≡ some p → AreBytes p
  pub jpeg_bytes : (s p : List ℕ) → d.jpeg_decode s ≡ some p → AreBytes p
  pub webp_bytes : (s p : List ℕ) (n : ℕ) → d.webp_decode s ≡ some (p, n) → AreBytes p
  pub image_bytes :
      (f : ImageFormat) (s p : List ℕ) (w h : ℕ) → d.image_decode f s ≡ some (w, h, p) → AreBytes p

area : (w h : ℕ) → IsTarget w h → w * h * 4 ≤ usize_max
area w h t = grind arith

pub target_size : (w h : ℕ) → IsTarget w h → pixel_buffer_size w h 4 ≡ some (w * h * 4)
target_size w h t = ground (arith, area w h, pixel_buffer_size_lem w h 4)

pub validate_dims-IsTarget : (w h : ℕ) → validate_dims w h ≡ ok tt → IsTarget w h
unfolding validate_dims
validate_dims-IsTarget w h e = ground arith

length-zip_pixels : (out bytes : List ℕ) → length (zip_pixels out bytes) ≡ length out
unfolding zip_pixels
length-zip_pixels (o0 ∷ o1 ∷ o2 ∷ o3 ∷ out) (r ∷ g ∷ b ∷ rest) =
    omega (arith, length-zip_pixels out rest)
length-zip_pixels out bytes = refl

zip_pixels-AreBytes :
    (out bytes : List ℕ) → AreBytes out → AreBytes bytes → AreBytes (zip_pixels out bytes)
unfolding zip_pixels
zip_pixels-AreBytes (o0 ∷ o1 ∷ o2 ∷ o3 ∷ out) (r ∷ g ∷ b ∷ rest) ho hb =
    let rest_bytes = zip_pixels-AreBytes out rest ho.1.1.1.1 hb.1.1.1 in
    (hb.0, (hb.1.0, (hb.1.1.0, (omega arith, rest_bytes))))
zip_pixels-AreBytes out bytes ho hb = ho

replicate-AreBytes : (n : ℕ) → AreBytes (replicate n 0)
replicate-AreBytes zero = tt
replicate-AreBytes (suc n) = (omega arith, replicate-AreBytes n)

to_rgba-IsImage :
    (w h bpp : ℕ) (bytes : List ℕ) (i : RgbaImage)
    → IsTarget w h
    → AreBytes bytes
    → to_rgba w h bytes bpp ≡ ok i
    → IsImage i
unfolding to_rgba
to_rgba-IsImage w h bpp bytes i t v e =
    let zero_byte : ℕ = 0 in
    let z : List ℕ = replicate (w * h * 4) 0 in
    ground (
      arith,
      target_size w h,
      length-zip_pixels z bytes,
      length-replicate (w * h * 4) zero_byte,
      zip_pixels-AreBytes z bytes,
      replicate-AreBytes (w * h * 4),
    )

decoded-IsImage :
    (w h bpp : ℕ) (frame : Option (List ℕ)) (i : RgbaImage)
    → ((p : List ℕ) → frame ≡ some p → AreBytes p)
    → (validate_dims w h >> (ok_or rendering_failed frame >>= λ buf. to_rgba w h buf bpp)) ≡ ok i
    → IsImage i
decoded-IsImage w h bpp none i v e = elim (Result-cases (validate_dims w h)) [
  | inl (u, checked) ↦ absurd (let e' = rw checked at e in cc)
  | inr (u, refused) ↦ absurd (let e' = rw refused at e in cc)
]
decoded-IsImage w h bpp (some buf) i v e = elim (Result-cases (validate_dims w h)) [
  | inl (tt, checked) ↦
      to_rgba-IsImage w h bpp buf i (validate_dims-IsTarget w h checked) (v buf refl)
        (rw checked at e)
  | inr (u, refused) ↦ absurd (let e' = rw refused at e in cc)
]

png-IsImage :
    (header : Option (ℕ × ℕ × ColorType)) (frame : Option (List ℕ)) (i : RgbaImage)
    → ((p : List ℕ) → frame ≡ some p → AreBytes p)
    → (ok_or invalid_document header >>= λ (w, h, color).
        (validate_dims w h
          >> (ok_or rendering_failed frame >>= λ buf.
              png_bpp color >>= λ bpp. to_rgba w h buf bpp)))
      ≡ ok i
    → IsImage i
png-IsImage none frame i v e = absurd (cc)
png-IsImage (some (w, h, rgb)) frame i v e = decoded-IsImage w h 3 frame i v e
png-IsImage (some (w, h, rgba)) frame i v e = decoded-IsImage w h 4 frame i v e
png-IsImage (some (w, h, other)) none i v e = ground arith
png-IsImage (some (w, h, other)) (some buf) i v e = ground arith

jpeg-IsImage :
    (header : Option (ℕ × ℕ)) (frame : Option (List ℕ)) (i : RgbaImage)
    → ((p : List ℕ) → frame ≡ some p → AreBytes p)
    → (ok_or invalid_document header >>= λ (w, h).
        (validate_dims w h >> (ok_or rendering_failed frame >>= λ buf. to_rgba w h buf 3)))
      ≡ ok i
    → IsImage i
jpeg-IsImage none frame i v e = absurd (cc)
jpeg-IsImage (some (w, h)) frame i v e = decoded-IsImage w h 3 frame i v e

webp-IsImage :
    (header : Option (ℕ × ℕ)) (frame : Option (List ℕ × ℕ)) (i : RgbaImage)
    → ((p : List ℕ) (n : ℕ) → frame ≡ some (p, n) → AreBytes p)
    → (ok_or invalid_document header >>= λ (w, h).
        (validate_dims w h >> (ok_or rendering_failed frame >>= λ (buf, bpp). to_rgba w h buf bpp)))
      ≡ ok i
    → IsImage i
webp-IsImage none frame i v e = absurd (cc)
webp-IsImage (some (w, h)) none i v e = decoded-IsImage w h 3 none i (λ p bad. absurd (cc)) e
webp-IsImage (some (w, h)) (some (buf, bpp)) i v e =
    decoded-IsImage w h bpp (some buf) i (λ p same. v p bpp (ground arith)) e

check_decoded-IsImage :
    (w h : ℕ) (decoded : ℕ × ℕ × List ℕ) (i : RgbaImage)
    → IsTarget w h
    → AreBytes decoded.2
    → check_decoded w h decoded ≡ ok i
    → IsImage i
unfolding check_decoded
check_decoded-IsImage w h (w', h', p) i t v e = ground (arith, target_size w h)

checked-IsImage :
    (header : Option (ℕ × ℕ)) (frame : Option (ℕ × ℕ × List ℕ)) (i : RgbaImage)
    → ((p : List ℕ) (w h : ℕ) → frame ≡ some (w, h, p) → AreBytes p)
    → (ok_or invalid_document header >>= λ (w, h).
        (validate_dims w h >> (ok_or rendering_failed frame >>= λ d. check_decoded w h d)))
      ≡ ok i
    → IsImage i
checked-IsImage none frame i v e = absurd (cc)
checked-IsImage (some (w, h)) none i v e = decoded-IsImage w h 3 none i (λ p bad. absurd (cc)) e
checked-IsImage (some (w, h)) (some (w', h', p)) i v e = elim (Result-cases (validate_dims w h)) [
  | inl (tt, checked) ↦
      check_decoded-IsImage w h (w', h', p) i (validate_dims-IsTarget w h checked) (v p w' h' refl)
        (rw checked at e)
  | inr (u, refused) ↦ absurd (let e' = rw refused at e in cc)
]

module _ (d : Decoders) (returned : ReturnBytes d) where
  open returned use {png_bytes, jpeg_bytes, webp_bytes, image_bytes}

  image_format-IsImage :
      (s : List ℕ) (f : ImageFormat) (i : RgbaImage)
      → (ok_or invalid_document (d.image_dimensions f s) >>= λ (w, h).
          (validate_dims w h
            >> (ok_or rendering_failed (d.image_decode f s) >>= λ decoded.
                check_decoded w h decoded)))
        ≡ ok i
      → IsImage i
  image_format-IsImage s f i e = checked-IsImage _ _ i (λ p w h same. image_bytes f s p w h same) e

  pub decode-IsImage :
      (s : List ℕ) (f : DocumentFormat) (i : RgbaImage) → decode d s f ≡ ok i → IsImage i
  unfolding decode decode_png decode_jpeg decode_webp decode_image_format
  decode-IsImage s unknown i e = absurd (cc)
  decode-IsImage s png i e = png-IsImage _ _ i (png_bytes s) e
  decode-IsImage s jpeg i e = jpeg-IsImage _ _ i (jpeg_bytes s) e
  decode-IsImage s webp i e = webp-IsImage _ _ i (webp_bytes s) e
  decode-IsImage s gif i e = image_format-IsImage s gif_format i e
  decode-IsImage s tiff i e = image_format-IsImage s tiff_format i e
  decode-IsImage s bmp i e = image_format-IsImage s bmp_format i e
  decode-IsImage s f i e = absurd (cc)

pub record IsOpened (r : ImageRenderer) : Type 0 where
  pub image : IsImage r.rgba
  pub one_page : r.info.page_count ≡ 1
  pub same_width : r.info.width ≡ r.rgba.width
  pub same_height : r.info.height ≡ r.rgba.height

-- A renderer that opens holds one page, described by its image's own size, and the image fills
-- its announced size within the page limits, whatever the decoding packages answered.
pub open_image-IsOpened :
    (d : Decoders) (s : List ℕ) (r : ImageRenderer)
    → ReturnBytes d
    → open_image d s ≡ ok r
    → IsOpened r
unfolding open_image
open_image-IsOpened d s r returned e = elim (Result-cases (validate_document_size s)) [
  | inr (u, refused) ↦ absurd (let e' = rw refused at e in cc)
  | inl (tt, sized) ↦ elim (Result-cases (decode d s (detect d.archive s))) [
    | inr (u, failed) ↦ absurd (let e' = rw (sized, failed) at e in cc)
    | inl (image, decoded) ↦
        let drawn = decode-IsImage d returned s (detect d.archive s) image decoded in
        let e' = rw (sized, decoded) at e in ground arith
  ]
]
