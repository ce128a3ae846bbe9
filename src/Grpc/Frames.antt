-- ===== src/Grpc/Frames.antt =====
-- Frames and statuses of src/grpc.rs against what is submitted.
use archiv_agent.Base.{
  ℕ, suc, ◌+◌, ◌-◌, ◌/◌, ◌%◌, ◌^◌, ◌≤◌, ◌<◌, ◌≡◌, ◌≢◌, refl, arith, [], ◌∷◌, ◌++◌, false, length,
  length-append, take-append, length-take, take-append-drop, drop, ltb, ◌==◌, if_case, not,
}
use archiv_agent.Wire.{Bytes}
use archiv_agent.Grpc.{from_be_bytes, Framed, refuse, message, read_frame}

-- The frame of a message, as a client writes it.
unfoldable pub frame : Bytes → Bytes
frame raw =
    let n = length raw in 0 ∷ n / 2 ^ 24 % 256 ∷ n / 2 ^ 16 % 256 ∷ n / 2 ^ 8 % 256 ∷ n % 256 ∷ raw

-- A message of less than 2 ^ 32 bytes is read back from its frame, whatever follows it.
pub read_frame-frame :
    (raw rest : Bytes) → length raw < 2 ^ 32 → read_frame (frame raw ++ rest) ≡ message raw
unfolding read_frame frame
read_frame-frame raw rest h =
    let n = length raw in
    let e : from_be_bytes (n / 2 ^ 24 % 256) (n / 2 ^ 16 % 256) (n / 2 ^ 8 % 256) (n % 256) ≡ n =
      omega arith in
    let fits : ltb (5 + length (raw ++ rest)) (5 + n) ≡ false =
      ground (arith, length-append raw rest) in
    let five : 5 + length (raw ++ rest) ≡ suc (suc (suc (suc (suc (length (raw ++ rest)))))) =
      omega arith in
    let back : 5 + n - 5 ≡ n = omega arith in
    rw (e, rw five at fits, back, take-append raw rest) refl

-- What a body that is read was: an uncompressed flag, the message's length, the message, and a rest.
pub record IsFrame (framed raw : Bytes) : Type 0 where
  pub a : ℕ
  pub b : ℕ
  pub c : ℕ
  pub d : ℕ
  pub rest : Bytes
  pub whole : framed ≡ 0 ∷ a ∷ b ∷ c ∷ d ∷ (raw ++ rest)
  pub sized : length raw ≡ from_be_bytes a b c d

-- The flag of the frame says that it is compressed.
pub record IsCompressed (framed : Bytes) : Type 0 where
  pub flag : ℕ
  pub a : ℕ
  pub b : ℕ
  pub c : ℕ
  pub d : ℕ
  pub rest : Bytes
  pub whole : framed ≡ flag ∷ a ∷ b ∷ c ∷ d ∷ rest
  pub raised : flag ≢ 0

-- The frame ends inside its header, or inside its message.
pub data IsCutOff (framed : Bytes) : Type 0 where
  in_header : length framed < 5 → IsCutOff framed
  in_message :
      (a b c d : ℕ) (rest : Bytes)
      → framed ≡ 0 ∷ a ∷ b ∷ c ∷ d ∷ rest
      → length rest < from_be_bytes a b c d
      → IsCutOff framed

-- What `read_frame` makes of a frame, and why.
pub data IsRead (framed : Bytes) : Framed → Type 0 where
  reads_whole : {raw : Bytes} → IsFrame framed raw → IsRead framed (message raw)
  reads_compressed : IsCompressed framed → IsRead framed (refuse 12)
  reads_cut_off : IsCutOff framed → IsRead framed (refuse 3)

read_frame_long :
    (flag a b c d : ℕ) (tail : Bytes)
    → IsRead (flag ∷ a ∷ b ∷ c ∷ d ∷ tail) (read_frame (flag ∷ a ∷ b ∷ c ∷ d ∷ tail))
unfolding read_frame
read_frame_long flag a b c d tail =
    let n = from_be_bytes a b c d in
    let framed : Bytes = flag ∷ a ∷ b ∷ c ∷ d ∷ tail in
    if_case (IsRead framed) (not (flag == 0))
      (λ e. reads_compressed (record {
        flag = flag;
        a = a;
        b = b;
        c = c;
        d = d;
        rest = tail;
        whole = refl;
        raised = λ z. ground (arith, e, z);
      }))
      (λ e.
        let zero_flag : flag ≡ 0 = ground (arith, e) in
        if_case (IsRead framed) (ltb (length framed) (5 + n))
          (λ short.
            reads_cut_off (in_message a b c d tail (rw zero_flag refl) (ground (arith, short))))
          (λ long.
            let back : 5 + n - 5 ≡ n = omega arith in
            let room : n ≤ length tail = ground (arith, long) in
            rw back (
              reads_whole (record {
                a = a;
                b = b;
                c = c;
                d = d;
                rest = drop n tail;
                whole = rw (take-append-drop n tail, zero_flag) refl;
                sized = omega (arith, length-take n tail, room);
              }))))

pub read_frame-IsRead : (framed : Bytes) → IsRead framed (read_frame framed)
unfolding read_frame
read_frame-IsRead [] = reads_cut_off (in_header (omega arith))
read_frame-IsRead (a ∷ []) = reads_cut_off (in_header (omega arith))
read_frame-IsRead (a ∷ b ∷ []) = reads_cut_off (in_header (omega arith))
read_frame-IsRead (a ∷ b ∷ c ∷ []) = reads_cut_off (in_header (omega arith))
read_frame-IsRead (a ∷ b ∷ c ∷ d ∷ []) = reads_cut_off (in_header (omega arith))
read_frame-IsRead (flag ∷ a ∷ b ∷ c ∷ d ∷ rest) = read_frame_long flag a b c d rest
