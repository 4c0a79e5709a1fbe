-- ===== src/Engine/Pipe.antt =====
-- internal/jsengine/stdin.go: the pipe that carries the responses to a tool's standard input.
pub mod Refines
use mykeep_foundry.Prelude.{
  Bool, Bytes, Result, [], drop, err, false, if◌then◌else◌, leb, length, ltb, not, ok, take, true,
  ℕ, ◌++◌, ◌+◌, ◌||◌,
}

-- `respPipe`
pub record RespPipe : Type 0 where
  pub buf : Bytes
  pub offset : ℕ
  pub closed : Bool

pub data PipeErr : Type 0 where
  closed_pipe eof enotsup : PipeErr

-- `newRespPipe`
abbrev pub new_resp_pipe : RespPipe
new_resp_pipe = record { buf = []; offset = 0; closed = false }

-- `Write`: the number of bytes, or an error, and the pipe after it.
unfoldable pub write : Bytes → RespPipe → Result PipeErr ℕ × RespPipe
write b p =
    if p.closed then (err closed_pipe, p) else (ok (length b), record p { buf = p.buf ++ b })

-- `p.buf, p.offset = nil, 0` where all was read.
consumed : ℕ → RespPipe → RespPipe
consumed n p =
    if leb (length p.buf) (p.offset + n)
    then record p { buf = []; offset = 0 }
    else record p { offset = p.offset + n }

-- `Read` into a buffer of `n` bytes: what it puts there.
unfoldable pub read : ℕ → RespPipe → Result PipeErr Bytes × RespPipe
unfolding consumed
read n p =
    let got = take n (drop p.offset p.buf) in
    if leb (length p.buf) p.offset
    then ((if p.closed then err eof else ok []), p)
    else (ok got, consumed (length got) p)

-- `Close`
unfoldable pub close : RespPipe → RespPipe
close p = record p { closed = true }

-- `Poll`; `pollin` says whether it asks for input.
unfoldable pub poll : Bool → RespPipe → Result PipeErr Bool
poll pollin p = if not pollin then err enotsup else ok (ltb p.offset (length p.buf) || p.closed)
