-- ===== src/Tests/Pipes.antt =====
-- The pipe and the frame writer at concrete inputs.
use mykeep_foundry.Prelude.{
  Bytes, List, Option, [], arith, false, none, refl, some, true, ℕ, ◌∷◌, ◌≡◌, ◌≢◌,
}
use mykeep_foundry.Engine.Transport.Chunks.{write_all, Encodes, take_frames_of-write_all}
use mykeep_foundry.Engine.Transport.{
  Fields, LineCodec, new_frame_writer, line_frames, take_frames_of,
}
use mykeep_foundry.Engine.Pipe.Refines.{
  Call, writes, reads, closes, polls, replies, channel_replies, replies-channel,
}
use mykeep_foundry.Engine.Pipe.{new_resp_pipe}

-- A write, a read of less than was written, a close, and reads to the end.
abbrev calls_in_row : List Call
calls_in_row =
    writes (1 ∷ 2 ∷ 3 ∷ []) ∷ reads 2 ∷ polls true ∷ closes ∷ reads 2 ∷ reads 2 ∷ writes [] ∷ []

replies-channel_example :
    replies calls_in_row new_resp_pipe
    ≡ channel_replies calls_in_row (record { queue = []; shut = false })
replies-channel_example = replies-channel calls_in_row

-- A frame whose only field is its number.
abbrev numbered : ℕ → Fields
numbered n = record {
  t = "result";
  id = n;
  op = "";
  args = [];
  level = "";
  msg = "";
  value = [];
  error = "";
}

abbrev first_number : Bytes → Option Fields
first_number [] = none
first_number (n ∷ b) = some (numbered n)

abbrev digits : LineCodec
digits = record { unmarshal = first_number; trim_space = λ line. line }

abbrev one_digit : Fields → Bytes
one_digit f = f.id ∷ []

Encodes-digit : (n : ℕ) → n ≢ 10 → Encodes digits one_digit (numbered n)
unfolding line_frames
Encodes-digit n h = record { one_line = (h, tt); decodes = refl }

-- The line of the second frame comes in two writes.
take_frames_of-write_all_example :
    take_frames_of (write_all digits ((65 ∷ 10 ∷ 66 ∷ []) ∷ (10 ∷ []) ∷ []) new_frame_writer)
    ≡ (numbered 65 ∷ numbered 66 ∷ [], new_frame_writer)
take_frames_of-write_all_example =
    take_frames_of-write_all digits one_digit (numbered 65 ∷ numbered 66 ∷ [])
      ((65 ∷ 10 ∷ 66 ∷ []) ∷ (10 ∷ []) ∷ [])
      (Encodes-digit 65 (ground arith), (Encodes-digit 66 (ground arith), tt)) refl
