-- ===== src/Engine/Pipe/Refines.antt =====
-- The pipe against a plain queue of bytes.
use mykeep_foundry.Engine.Pipe.{
  consumed, write, read, close, poll, RespPipe, PipeErr, closed_pipe, eof, enotsup, new_resp_pipe,
}
use mykeep_foundry.Prelude.{
  Bool, Bytes, List, Result, [], ap, arith, drop, err, false, if◌then◌else◌, leb, length,
  length-append, not, ok, refl, suc, take, true, zero, ℕ, ◌++◌, ◌+◌, ◌||◌, ◌∙◌, ◌∷◌, ◌≡◌, ◌≤◌,
}

-- What the two ends of the pipe call.
pub data Call : Type 0 where
  writes : Bytes → Call
  reads : ℕ → Call
  closes : Call
  polls : Bool → Call

-- What a call returns.
pub data Reply : Type 0 where
  write_reply : Result PipeErr ℕ → Reply
  read_reply : Result PipeErr Bytes → Reply
  close_reply : Reply
  poll_reply : Result PipeErr Bool → Reply

abbrev pub step : Call → RespPipe → Reply × RespPipe
step (writes b) p = (write_reply (write b p).0, (write b p).1)
step (reads n) p = (read_reply (read n p).0, (read n p).1)
step closes p = (close_reply, close p)
step (polls pollin) p = (poll_reply (poll pollin p), p)

-- A queue of bytes, and whether it is closed.
pub record Channel : Type 0 where
  pub queue : Bytes
  pub shut : Bool

abbrev is_nil : Bytes → Bool
is_nil [] = true
is_nil (b ∷ bs) = false

abbrev pub channel_step : Call → Channel → Reply × Channel
channel_step (writes b) c =
    if c.shut
    then (write_reply (err closed_pipe), c)
    else (write_reply (ok (length b)), record c { queue = c.queue ++ b })
channel_step (reads n) c =
    if is_nil c.queue
    then (read_reply (if c.shut then err eof else ok []), c)
    else (read_reply (ok (take n c.queue)), record c { queue = drop n c.queue })
channel_step closes c = (close_reply, record c { shut = true })
channel_step (polls pollin) c =
    (poll_reply (if not pollin then err enotsup else ok (not (is_nil c.queue) || c.shut)), c)

abbrev pub replies : List Call → RespPipe → List Reply
replies [] p = []
replies (c ∷ cs) p = (step c p).0 ∷ replies cs (step c p).1

abbrev pub channel_replies : List Call → Channel → List Reply
channel_replies [] c = []
channel_replies (x ∷ cs) c = (channel_step x c).0 ∷ channel_replies cs (channel_step x c).1

-- What is still to be read.
abbrev pending : RespPipe → Channel
pending p = record { queue = drop p.offset p.buf; shut = p.closed }

abbrev IsValid : RespPipe → Type 0
IsValid p = p.offset ≤ length p.buf

drop-zero : (xs : Bytes) → drop zero xs ≡ xs
drop-zero [] = refl
drop-zero (x ∷ xs) = refl

drop-append_le : (n : ℕ) (xs ys : Bytes) → n ≤ length xs → drop n (xs ++ ys) ≡ drop n xs ++ ys
drop-append_le zero [] ys h = drop-zero ys
drop-append_le zero (x ∷ xs) ys h = refl
drop-append_le (suc n) [] ys h = absurd (omega arith)
drop-append_le (suc n) (x ∷ xs) ys h = drop-append_le n xs ys (omega arith)

drop-length-take : (n : ℕ) (xs : Bytes) → drop (length (take n xs)) xs ≡ drop n xs
drop-length-take n [] = refl
drop-length-take zero (x ∷ xs) = refl
drop-length-take (suc n) (x ∷ xs) = drop-length-take n xs

drop-drop : (k n : ℕ) (xs : Bytes) → drop (k + length (take n (drop k xs))) xs ≡ drop n (drop k xs)
drop-drop k n [] = refl
drop-drop zero n (x ∷ xs) =
    ap (λ (j : ℕ). drop j (x ∷ xs)) {y = length (take n (x ∷ xs))} (omega arith)
    ∙ drop-length-take n (x ∷ xs)
drop-drop (suc k) n (x ∷ xs) =
    ap (λ (j : ℕ). drop j (x ∷ xs)) {y = suc (k + length (take n (drop k xs)))} (omega arith)
    ∙ drop-drop k n xs

drop_all : (n : ℕ) (xs : Bytes) → length xs ≤ n → drop n xs ≡ []
drop_all n [] h = refl
drop_all zero (x ∷ xs) h = absurd (omega arith)
drop_all (suc n) (x ∷ xs) h = drop_all n xs (omega arith)

length-take-le_length : (n : ℕ) (xs : Bytes) → length (take n xs) ≤ length xs
length-take-le_length n [] = omega arith
length-take-le_length zero (x ∷ xs) = omega arith
length-take-le_length (suc n) (x ∷ xs) = omega (arith, length-take-le_length n xs)

length-take-drop-le :
    (k n : ℕ) (xs : Bytes) → k ≤ length xs → k + length (take n (drop k xs)) ≤ length xs
length-take-drop-le k n [] h = omega arith
length-take-drop-le zero n (x ∷ xs) h = omega (arith, length-take-le_length n (x ∷ xs))
length-take-drop-le (suc k) n (x ∷ xs) h = omega (arith, length-take-drop-le k n xs (omega arith))

is_nil-drop : (n : ℕ) (xs : Bytes) → is_nil (drop n xs) ≡ leb (length xs) n
is_nil-drop n [] = ground arith
is_nil-drop zero (x ∷ xs) = ground arith
is_nil-drop (suc n) (x ∷ xs) = is_nil-drop n xs ∙ ground arith

write-pending :
    (b : Bytes) (p : RespPipe)
    → IsValid p
    → ((step (writes b) p).0 ≡ (channel_step (writes b) (pending p)).0)
      × (pending (step (writes b) p).1 ≡ (channel_step (writes b) (pending p)).1)
      × IsValid (step (writes b) p).1
unfolding write
write-pending b p v = ground (arith, drop-append_le p.offset p.buf b v, length-append p.buf b)

read-pending :
    (n : ℕ) (p : RespPipe)
    → IsValid p
    → ((step (reads n) p).0 ≡ (channel_step (reads n) (pending p)).0)
      × (pending (step (reads n) p).1 ≡ (channel_step (reads n) (pending p)).1)
      × IsValid (step (reads n) p).1
unfolding read consumed
read-pending n p v = ground (
  arith,
  is_nil-drop p.offset p.buf,
  drop-drop p.offset n p.buf,
  drop_all (p.offset + length (take n (drop p.offset p.buf))) p.buf,
  length-take-drop-le p.offset n p.buf v,
)

step-pending :
    (c : Call) (p : RespPipe)
    → IsValid p
    → ((step c p).0 ≡ (channel_step c (pending p)).0)
      × (pending (step c p).1 ≡ (channel_step c (pending p)).1)
      × IsValid (step c p).1
unfolding close poll
step-pending (writes b) p v = write-pending b p v
step-pending (reads n) p v = read-pending n p v
step-pending closes p v = (refl, refl, v)
step-pending (polls pollin) p v = (ground (arith, is_nil-drop p.offset p.buf), refl, v)

replies-pending :
    (cs : List Call) (p : RespPipe) → IsValid p → replies cs p ≡ channel_replies cs (pending p)
replies-pending [] p v = refl
replies-pending (c ∷ cs) p v =
    let (same, after, valid) = step-pending c p v in
    rw same (
      ap (◌∷◌ (channel_step c (pending p)).0)
        (replies-pending cs (step c p).1 valid ∙ ap (channel_replies cs) after))

-- No sequence of calls tells a new pipe from an empty queue of bytes: what is read is what was
-- written, in order, once.
pub replies-channel :
    (cs : List Call)
    → replies cs new_resp_pipe ≡ channel_replies cs (record { queue = []; shut = false })
replies-channel cs = replies-pending cs new_resp_pipe (omega arith)
