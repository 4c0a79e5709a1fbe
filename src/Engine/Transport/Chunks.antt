-- ===== src/Engine/Transport/Chunks.antt =====
-- How the bytes are cut into writes makes no difference to the frames.
use mathlib.Core.List.{append_assoc, append-nil}
use mykeep_foundry.Prelude.{
  All, Bool-cases, Bytes, List, [], ap, arith, eqb, false, inl, inr, refl, sym, ℕ, ◌++◌, ◌∙◌, ◌∷◌,
  ◌≡◌, ◌≢◌,
}
use mykeep_foundry.Engine.Transport.{
  read_lines, Fields, LineCodec, FrameWriter, new_frame_writer, onto_line, line_frames,
  lines_frames, write_frames, take_frames_of,
}

abbrev joined : List Bytes × Bytes → List Bytes × Bytes → List Bytes × Bytes
joined (ls, rest) after = (ls ++ after.0, after.1)

onto_line-joined :
    (c : ℕ) (x : List Bytes × Bytes) (b : Bytes)
    → eqb c b'\n' ≡ false
    → onto_line c (joined x (read_lines (x.1 ++ b)))
      ≡ joined (onto_line c x) (read_lines ((onto_line c x).1 ++ b))
unfolding read_lines
onto_line-joined c ([], rest) b h = rw h refl
onto_line-joined c (l ∷ ls, rest) b h = refl

read_lines-append :
    (a b : Bytes) → read_lines (a ++ b) ≡ joined (read_lines a) (read_lines ((read_lines a).1 ++ b))
unfolding read_lines
read_lines-append [] b = refl
read_lines-append (c ∷ a) b = elim (Bool-cases (eqb c b'\n')) [
  | inl e ↦ rw (e, read_lines-append a b) refl
  | inr e ↦ rw (e, read_lines-append a b) (onto_line-joined c (read_lines a) b e)
]

module _ (codec : LineCodec) where
  lines_frames-append :
      (ls ms : List Bytes)
      → lines_frames codec (ls ++ ms) ≡ lines_frames codec ls ++ lines_frames codec ms
  lines_frames-append [] ms = refl
  lines_frames-append (l ∷ ls) ms =
      ap (◌++◌ (line_frames codec l)) (lines_frames-append ls ms)
      ∙ sym (append_assoc (line_frames codec l) (lines_frames codec ls) (lines_frames codec ms))

  write_frames-write_frames :
      (p q : Bytes) (w : FrameWriter)
      → write_frames codec q (write_frames codec p w) ≡ write_frames codec (p ++ q) w
  unfolding write_frames
  write_frames-write_frames p q w = rw (
    sym (append_assoc w.buf p q),
    read_lines-append (w.buf ++ p) q,
    lines_frames-append,
    append_assoc,
  )

  -- The writes of the sandbox, one after the other.
  abbrev pub write_all : List Bytes → FrameWriter → FrameWriter
  write_all [] w = w
  write_all (p ∷ ps) w = write_all ps (write_frames codec p w)

  abbrev pub concat : List Bytes → Bytes
  concat [] = []
  concat (p ∷ ps) = p ++ concat ps

  write_all-concat :
      (ps : List Bytes) (p : Bytes) (w : FrameWriter)
      → write_all ps (write_frames codec p w) ≡ write_frames codec (p ++ concat ps) w
  write_all-concat [] p w = rw append-nil refl
  write_all-concat (q ∷ ps) p w =
      ap (write_all ps) (write_frames-write_frames p q w)
      ∙ write_all-concat ps (p ++ q) w
      ∙ ap (λ (x : Bytes). write_frames codec x w) (append_assoc p q (concat ps))

  write_nothing : write_frames codec [] new_frame_writer ≡ new_frame_writer
  unfolding write_frames read_lines
  write_nothing = refl

  -- An encoder makes of the frame a line that the writer understands: no newline stands in it, and it
  -- decodes to the frame.
  pub record Encodes (marshal : Fields → Bytes) (f : Fields) : Type 0 where
    pub one_line : All (λ c. c ≢ b'\n') (marshal f)
    pub decodes : line_frames codec (marshal f ++ b'\n' ∷ []) ≡ f ∷ []

  abbrev pub encode : (Fields → Bytes) → List Fields → Bytes
  encode marshal [] = []
  encode marshal (f ∷ fs) = marshal f ++ b'\n' ∷ encode marshal fs

  read_lines_line :
      (l b : Bytes)
      → All (λ c. c ≢ b'\n') l
      → read_lines (l ++ b'\n' ∷ b) ≡ ((l ++ b'\n' ∷ []) ∷ (read_lines b).0, (read_lines b).1)
  unfolding read_lines
  read_lines_line [] b h = refl
  read_lines_line (c ∷ l) b h = rw (read_lines_line l b h.1) (ground (arith, h.0))

  read_lines-encode :
      (marshal : Fields → Bytes) (fs : List Fields)
      → All (Encodes marshal) fs
      → (lines_frames codec (read_lines (encode marshal fs)).0 ≡ fs)
        × ((read_lines (encode marshal fs)).1 ≡ [])
  unfolding read_lines
  read_lines-encode marshal [] lawful = (refl, refl)
  read_lines-encode marshal (f ∷ fs) (lawful, later) =
      let (same, none_left) = read_lines-encode marshal fs later in
      rw (read_lines_line (marshal f) (encode marshal fs) (lawful.one_line))
        (rw (lawful.decodes) (ap (◌∷◌ f) same), none_left)

  write_frames-encode :
      (marshal : Fields → Bytes) (fs : List Fields)
      → All (Encodes marshal) fs
      → write_frames codec (encode marshal fs) new_frame_writer ≡ record { buf = []; frames = fs }
  unfolding write_frames
  write_frames-encode marshal fs lawful =
      let (same, none_left) = read_lines-encode marshal fs lawful in rw (same, none_left) refl

  -- However the lines of some frames are cut into writes, `take` then returns these frames, in
  -- order, and leaves an empty writer.
  pub take_frames_of-write_all :
      (marshal : Fields → Bytes) (fs : List Fields) (ps : List Bytes)
      → All (Encodes marshal) fs
      → concat ps ≡ encode marshal fs
      → take_frames_of (write_all ps new_frame_writer) ≡ (fs, new_frame_writer)
  unfolding take_frames_of
  take_frames_of-write_all marshal fs ps lawful cut =
      let written =
        ap (write_all ps) (sym write_nothing)
        ∙ write_all-concat ps [] new_frame_writer
        ∙ ap (λ (x : Bytes). write_frames codec x new_frame_writer) cut
        ∙ write_frames-encode marshal fs lawful in
      ap (λ (w : FrameWriter). (w.frames, record w { frames = [] })) written
