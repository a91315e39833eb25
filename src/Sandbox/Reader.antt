-- ===== src/Sandbox/Reader.antt =====
-- The reader thread and its channel of one place (`read_loop` of crates/sandbox/src/process.rs) with
-- the host as a step relation: the scheduler chooses between a step of the thread and one of the
-- host. A `try_send` that finds the channel full and the store of the flag are two steps.
use doc_bunker.Prelude.{
  ◌≡◌, ◌≢◌, ◌||◌, refl, ◌∙◌, Bool, true, false, Option, none, some, List, [], ◌∷◌, ◌++◌, arith,
  Bool-cases, inl, inr, if◌then◌else◌,
}
use mathlib.Core.List.{append_assoc}
use doc_bunker.Sandbox.Process.{Frame, frame, end_of_stream, read_error}

-- Where the thread stands: before a read, between a `try_send` that found the channel full and the
-- store of the flag, or at its end.
pub data Phase : Type 0 where
  reading dropping returned : Phase

pub record Pipe : Type 0 where
  pub channel : Option Frame
  pub overflow : Bool
  pub phase : Phase
  -- the host has not dropped its end of the channel
  pub connected : Bool
  -- what the stream has still to give to `next_frame`
  pub left : List Frame
  -- what the host has received, in order
  pub taken : List Frame

abbrev pub is_frame : Frame → Bool
is_frame (frame _) = true
is_frame end_of_stream = false
is_frame read_error = false

abbrev pub after_sent : Frame → Phase
after_sent f = if is_frame f then reading else returned

-- `try_send` into the channel.
unfoldable pub try_send : Option Frame → Frame → Pipe → Pipe
try_send none f p = record p { channel = some f; phase = after_sent f }
try_send (some waiting) f p = record p { phase = dropping }

-- A read and its `try_send`. With no input the thread waits.
unfoldable pub read_next : List Frame → Pipe → Pipe
unfolding try_send
read_next [] p = p
read_next (f ∷ left) p =
    let behind = record p { left = left } in
    if p.connected then try_send p.channel f behind else record behind { phase = returned }

unfoldable pub thread_step : Phase → Pipe → Pipe
unfolding read_next
thread_step reading p = read_next p.left p
thread_step dropping p = record p { overflow = true; phase = returned }
thread_step returned p = p

pub data Step : Pipe → Pipe → Type 0 where
  thread : (p : Pipe) → Step p (thread_step p.phase p)
  recv :
      (p : Pipe) (f : Frame)
      → p.channel ≡ some f
      → Step p (record p { channel = none; taken = p.taken ++ f ∷ [] })
  hang_up : (p : Pipe) → Step p (record p { channel = none; connected = false })

pub data Reach (p : Pipe) : Pipe → Type 0 where
  here : Reach p p
  next : {q r : Pipe} → Reach p q → Step q r → Reach p r

abbrev pub waiting : Option Frame → List Frame
waiting none = []
waiting (some f) = f ∷ []

unfoldable pub fresh : List Frame → Pipe
fresh stream = record {
  channel = none;
  overflow = false;
  phase = reading;
  connected = true;
  left = stream;
  taken = [];
}

abbrev pub is_dropping : Phase → Bool
is_dropping dropping = true
is_dropping phase = false

-- A frame was dropped.
abbrev pub has_dropped : Pipe → Bool
has_dropped p = p.overflow || is_dropping p.phase

-- What is known of the stream. The host has received the front of it. While the host is connected
-- and no frame was dropped, nothing is missing. After one was dropped the thread reads no more, and
-- the flag goes up in its last step.
pub record IsOrdered (stream : List Frame) (p : Pipe) : Type 0 where
  pub front : (rest : List Frame) × (p.taken ++ (waiting p.channel ++ rest) ≡ stream)
  pub kept :
      p.connected ≡ true → has_dropped p ≡ false → p.taken ++ (waiting p.channel ++ p.left) ≡ stream
  pub dropped :
      p.connected ≡ true
      → has_dropped p ≡ true
      → (p.phase ≢ reading)
        × (lost : Frame) × (p.taken ++ (waiting p.channel ++ lost ∷ p.left) ≡ stream)
  pub flagged : p.overflow ≡ true → p.phase ≡ returned

-- Before a read nothing was dropped.
reading-clear :
    (stream : List Frame) (p : Pipe) → p.phase ≡ reading → IsOrdered stream p → p.overflow ≡ false
reading-clear stream p r v = elim (Bool-cases p.overflow) [
  | inl over ↦ absurd (let h = v.flagged over in cc)
  | inr clear ↦ clear
]

after_sent-clear : (f : Frame) → is_dropping (after_sent f) ≡ false
after_sent-clear (frame _) = refl
after_sent-clear end_of_stream = refl
after_sent-clear read_error = refl

try_send-IsOrdered :
    (stream : List Frame) (channel : Option Frame) (f : Frame) (left : List Frame) (p : Pipe)
    → p.channel ≡ channel
    → p.overflow ≡ false
    → p.taken ++ (waiting channel ++ f ∷ left) ≡ stream
    → IsOrdered stream (try_send channel f (record p { left = left }))
unfolding try_send
try_send-IsOrdered stream none f left p c o h = record {
  front = (left, h);
  kept = λ b d. h;
  dropped = λ b d. absurd (let a = after_sent-clear f in let d' = rw (o, a) at d in cc);
  flagged = λ over. absurd (cc);
}
try_send-IsOrdered stream (some w) f left p c o h = record {
  front = rw c (f ∷ left, h);
  kept = λ b d. absurd (let d' = rw o at d in cc);
  dropped = λ b d. ((λ e. cc), f, rw c h);
  flagged = λ over. absurd (cc);
}

read_next-IsOrdered :
    (stream : List Frame) (left : List Frame) (p : Pipe)
    → p.left ≡ left
    → p.phase ≡ reading
    → IsOrdered stream p
    → IsOrdered stream (read_next left p)
unfolding read_next
read_next-IsOrdered stream [] p l r v = v
read_next-IsOrdered stream (f ∷ left) p l r v = sent p.connected refl (reading-clear stream p r v)
  where
    behind : Pipe
    behind = record p { left = left }

    sent :
        (b : Bool)
        → p.connected ≡ b
        → p.overflow ≡ false
        → IsOrdered stream
            (if b then try_send p.channel f behind else record behind { phase = returned })
    sent true on clear =
        try_send-IsOrdered stream p.channel f left p refl clear
          (rw l at (v.kept on (rw (clear, r) refl)))
    sent false off clear = record {
      front = v.front;
      kept = λ b d. absurd (cc);
      dropped = λ b d. absurd (cc);
      flagged = λ over. refl;
    }

thread_step-IsOrdered :
    (stream : List Frame) (phase : Phase) (p : Pipe)
    → p.phase ≡ phase
    → IsOrdered stream p
    → IsOrdered stream (thread_step phase p)
unfolding thread_step
thread_step-IsOrdered stream reading p e v = read_next-IsOrdered stream p.left p refl e v
thread_step-IsOrdered stream returned p e v = v
thread_step-IsOrdered stream dropping p e v = record {
  front = v.front;
  kept = λ b d. absurd (cc);
  dropped = λ b d. let (_, f, h) = v.dropped b (lost e) in ((λ r. cc), f, h);
  flagged = λ over. refl;
}
  where
    lost : p.phase ≡ dropping → has_dropped p ≡ true
    lost q = rw q (ground arith)

recv-IsOrdered :
    (stream : List Frame) (p : Pipe) (f : Frame)
    → p.channel ≡ some f
    → IsOrdered stream p
    → IsOrdered stream (record p { channel = none; taken = p.taken ++ f ∷ [] })
recv-IsOrdered stream p f c v = record {
  front = (v.front.0, moved v.front.0 v.front.1);
  kept = λ b d. moved p.left (v.kept b d);
  dropped =
      λ b d. let (stopped, lost, h) = v.dropped b d in (stopped, lost, moved (lost ∷ p.left) h);
  flagged = v.flagged;
}
  where
    moved :
        (rest : List Frame)
        → p.taken ++ (waiting p.channel ++ rest) ≡ stream
        → (p.taken ++ f ∷ []) ++ rest ≡ stream
    moved rest h = append_assoc p.taken (f ∷ []) rest ∙ ground arith

Step-IsOrdered :
    (stream : List Frame) {p q : Pipe} → Step p q → IsOrdered stream p → IsOrdered stream q
Step-IsOrdered stream (thread p) v = thread_step-IsOrdered stream p.phase p refl v
Step-IsOrdered stream (recv p f c) v = recv-IsOrdered stream p f c v
Step-IsOrdered stream (hang_up p) v = record {
  front = (waiting p.channel ++ v.front.0, v.front.1);
  kept = λ b d. absurd (cc);
  dropped = λ b d. absurd (cc);
  flagged = v.flagged;
}

fresh-IsOrdered : (stream : List Frame) → IsOrdered stream (fresh stream)
unfolding fresh
fresh-IsOrdered stream = record {
  front = (stream, refl);
  kept = λ b d. refl;
  dropped = λ b d. absurd (cc);
  flagged = λ o. absurd (cc);
}

-- Under every interleaving of the steps of the reader thread with those of the host, what the host
-- has received is the front of the worker's stream, in order. While the host is connected: as long
-- as no frame was dropped, what it has received, what waits in the channel and what is still to be
-- read make up the stream; after a drop the thread reads no more, so no later frame reaches the
-- host. Once the flag is up the thread has returned.
pub Reach-IsOrdered : (stream : List Frame) (p : Pipe) → Reach (fresh stream) p → IsOrdered stream p
Reach-IsOrdered stream p r = reached r (fresh-IsOrdered stream)
  where
    reached :
        {q : Pipe} → Reach (fresh stream) q → IsOrdered stream (fresh stream) → IsOrdered stream q
    reached here v = v
    reached (next r s) v = Step-IsOrdered stream s (reached r v)
