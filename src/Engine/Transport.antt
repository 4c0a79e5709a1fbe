-- ===== src/Engine/Transport.antt =====
-- internal/jsengine/transport.go: the frames that a tool writes to its standard output.
pub mod Chunks
use mykeep_foundry.Prelude.{
  Bytes, List, Option, String, [], eqb, if◌then◌else◌, none, some, ℕ, ◌++◌, ◌==◌, ◌∷◌,
}
use mykeep_foundry.Engine.{Frame, call_frame, log_frame, result_frame, error_frame, other_frame}

-- `frame`
pub record Fields : Type 0 where
  pub t : String
  pub id : ℕ
  pub op : String
  pub args : Bytes
  pub level : String
  pub msg : String
  pub value : Bytes
  pub error : String

-- The variant that the field `t` selects, in the `switch` of the event loop.
unfoldable pub frame_of : Fields → Frame
frame_of f =
    if f.t == "call"
    then call_frame f.id f.op f.args
    else if f.t == "log"
    then log_frame f.level f.msg
    else if f.t == "result"
    then result_frame f.value
    else if f.t == "error"
    then error_frame f.error
    else other_frame

-- What the writer uses of `encoding/json` and `bytes`: `json.Unmarshal` and `bytes.TrimSpace`.
pub record LineCodec : Type 0 where
  pub unmarshal : Bytes → Option Fields
  pub trim_space : Bytes → Bytes

-- `frameWriter`
pub record FrameWriter : Type 0 where
  pub buf : Bytes
  pub frames : List Fields

abbrev pub new_frame_writer : FrameWriter
new_frame_writer = record { buf = []; frames = [] }

abbrev pub onto_line : ℕ → List Bytes × Bytes → List Bytes × Bytes
onto_line c ([], rest) = ([], c ∷ rest)
onto_line c (l ∷ ls, rest) = ((c ∷ l) ∷ ls, rest)

-- `ReadBytes('\n')` until it fails: the whole lines, and what is put back.
unfoldable pub read_lines : Bytes → List Bytes × Bytes
read_lines [] = ([], [])
read_lines (c ∷ b) =
    let after = read_lines b in
    if eqb c b'\n' then ((c ∷ []) ∷ after.0, after.1) else onto_line c after

module _ (codec : LineCodec) where
  kept_frame : Option Fields → List Fields
  kept_frame none = []
  kept_frame (some f) = f ∷ []

  parsed_line : Bytes → List Fields
  unfolding kept_frame
  parsed_line [] = []
  parsed_line (c ∷ line) = kept_frame (codec.unmarshal (c ∷ line))

  -- One round of the loop: an empty line and one that is no frame are dropped.
  unfoldable pub line_frames : Bytes → List Fields
  unfolding parsed_line
  line_frames line = parsed_line (codec.trim_space line)

  abbrev pub lines_frames : List Bytes → List Fields
  lines_frames [] = []
  lines_frames (l ∷ ls) = line_frames l ++ lines_frames ls

  -- `Write`
  unfoldable pub write_frames : Bytes → FrameWriter → FrameWriter
  unfolding line_frames read_lines
  write_frames p w =
      let (ls, rest) = read_lines (w.buf ++ p) in
      record { buf = rest; frames = w.frames ++ lines_frames ls }

-- `take`
unfoldable pub take_frames_of : FrameWriter → List Fields × FrameWriter
take_frames_of w = (w.frames, record w { frames = [] })
