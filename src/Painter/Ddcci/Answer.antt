-- ===== src/Painter/Ddcci/Answer.antt =====
-- The buffers of the display data channel: no copy overruns, and the client's answer arrives.
use evdi.Prelude.{
  ℕ, ◌+◌, ◌≤◌, ◌≡◌, refl, sym, ◌∙◌, min, Bool, true, not, List, [], ◌∷◌, Option, none, some, ◌==◌,
  if-cases, length, length-append, take_all, append-nil, drop, arith, zero, suc,
}
use evdi.Errno.{err, Status, done, efault}
use evdi.Painter.State.{Painter}
use evdi.Painter.Connect.{read_user}
use evdi.Painter.Connect.Lifecycle.{read_user_lem}
use evdi.Painter.Ddcci.{
  I2cMsg, ResponseArgs, ddcci_buffer_size, take_response, ddcci_response_ioctl, overwrite,
}

-- the buffer, if there is one, has its stated length, and that fits
abbrev pub BufferOk : Option (List ℕ) → ℕ → Type 0
BufferOk none n = n ≤ ddcci_buffer_size
BufferOk (some bytes) n = (length bytes ≡ n) × (n ≤ ddcci_buffer_size)

-- Whatever length a client states and whatever fails, the painter's buffer, if there is one, has
-- the length that the painter has for it, and that is 64 bytes at most.
pub response-BufferOk :
    (p : Painter) (cmd : ResponseArgs) (alloc : Bool)
    → let p' = (ddcci_response_ioctl p cmd alloc).0 in
      BufferOk p'.ddcci_buffer p'.ddcci_buffer_length
unfolding ddcci_response_ioctl
response-BufferOk p cmd alloc =
    if-cases {A = Painter × Status} Fits (not alloc) _ _ (λ _. omega arith) (λ _. read _ refl)
  where
    Fits : Painter × Status → Type 0
    Fits (q, status) = BufferOk q.ddcci_buffer q.ddcci_buffer_length

    sized : Painter
    sized = record p {
      ddcci_buffer_length = min cmd.buffer_length ddcci_buffer_size;
      ddcci_buffer = none;
    }

    read :
        (r : Option (List ℕ))
        → read_user cmd.buffer (min cmd.buffer_length ddcci_buffer_size) ≡ r
        → Fits (elim r [
          | none ↦ (sized, err efault)
          | some bytes ↦
              (record sized { ddcci_buffer = some bytes; ddcci_done = p.ddcci_done + 1 }, done)
        ])
    read none e = omega arith
    read (some bytes) e = (read_user_lem cmd.buffer _ bytes e, omega arith)

length-drop : (n : ℕ) (xs : List ℕ) → n ≤ length xs → n + length (drop n xs) ≡ length xs
length-drop zero xs h = omega arith
length-drop (suc n) [] h = omega arith
length-drop (suc n) (x ∷ xs) h = omega (arith, length-drop n xs (omega arith))

length-overwrite :
    (bytes buf : List ℕ) → length bytes ≤ length buf → length (overwrite bytes buf) ≡ length buf
length-overwrite bytes buf h =
    omega (arith, length-append bytes (drop (length bytes) buf), length-drop (length bytes) buf h)

-- If the painter's buffer has its stated length and the message its own, taking the answer
-- leaves the message its length: the copy stays inside.
pub take_response-length :
    (p : Painter) (msg : I2cMsg)
    → BufferOk p.ddcci_buffer p.ddcci_buffer_length
    → length msg.buf ≡ msg.len
    → length (take_response p msg).buf ≡ msg.len
unfolding take_response
take_response-length p msg v l =
    if-cases {A = I2cMsg} Sized (not (min msg.len ddcci_buffer_size == p.ddcci_buffer_length)) _ _
      (λ _. l) λ e. copied p.ddcci_buffer v (ground arith)
  where
    Sized : I2cMsg → Type 0
    Sized m = length m.buf ≡ msg.len

    copied :
        (buffer : Option (List ℕ))
        → BufferOk buffer p.ddcci_buffer_length
        → min msg.len ddcci_buffer_size ≡ p.ddcci_buffer_length
        → Sized
            (elim buffer [ some bytes ↦ record msg { buf = overwrite bytes msg.buf } | none ↦ msg ])
    copied none b e = l
    copied (some bytes) b e = length-overwrite bytes msg.buf (omega (arith, b)) ∙ l

drop_all : (n : ℕ) (xs : List ℕ) → length xs ≡ n → drop n xs ≡ []
drop_all zero [] h = refl
drop_all zero (x ∷ xs) h = absurd (omega arith)
drop_all (suc n) [] h = refl
drop_all (suc n) (x ∷ xs) h = drop_all n xs (omega arith)

read_user_all : (bytes : List ℕ) (n : ℕ) → length bytes ≡ n → read_user (some bytes) n ≡ some bytes
unfolding read_user
read_user_all bytes n h = ground (arith, take_all n bytes h)

-- For a message of at most 64 bytes, an answer of its length that can be read and stored is
-- accepted, and is what the reader gets, whatever the client states in `result`: also where that is 0,
-- for a request that failed.
pub response_arrives :
    (p : Painter) (msg : I2cMsg) (bytes : List ℕ) (result : ℕ)
    → length bytes ≡ msg.len
    → msg.len ≤ ddcci_buffer_size
    → length msg.buf ≡ msg.len
    → let (p', status) =
        ddcci_response_ioctl p
          (record { buffer = some bytes; buffer_length = msg.len; result = result })
          true in
      (status ≡ done) × ((take_response p' msg).buf ≡ bytes)
unfolding ddcci_response_ioctl take_response
response_arrives p msg bytes result l fits m =
    let whole : min msg.len ddcci_buffer_size ≡ msg.len = omega arith in
    let same : (msg.len == min msg.len ddcci_buffer_size) ≡ true = ground arith in
    rw (whole, read_user_all bytes msg.len l, same)
      (refl, rw (drop_all (length bytes) msg.buf (m ∙ sym l)) (append-nil bytes))
