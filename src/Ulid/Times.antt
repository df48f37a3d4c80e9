-- ===== src/Ulid/Times.antt =====
-- The time of an identifier.
use ferry_cli.Base.{
  ℕ, zero, suc, ◌+◌, ◌*◌, ◌%◌, ◌^◌, ◌≤◌, ◌<◌, ◌≡◌, refl, ◌∙◌, ap, sym, true, false, some, List, [],
  ◌∷◌, ◌++◌, map, all, length, arith, eqb, leb, ◌||◌, eqb_iff, subst, Bool-cases, inl, inr,
}
use Prim.Native.Nat.{bit_and, bit_or}
use ferry_cli.Api.Target.{Bytes}
use ferry_cli.Ulid.{
  encoding, decoding, head_digits, block_digits, shift_right, blocks, ms_byte, id_digits, encode,
  valid, in_alphabet, leads, shift_in, stamp, timestamp,
}
use ferry_cli.Ulid.Bits.{masks, join32, passes_below, passes}
use ferry_cli.Ulid.Digits.{
  number, AreBelow, IsEntropy, block_number, block_small, head-number, ms_bytes-number, byte_small,
  id_digits-number, id_digits-IsDigits,
}

-- A digit is read back.
decoding-encoding : (d : ℕ) → d < 32 → decoding (encoding d) ≡ d
unfolding passes_below encoding decoding
decoding-encoding d h = (eqb_iff _ d).0 (passes 32 (λ x. eqb (decoding (encoding x)) x) d refl h)

-- A byte of the alphabet stands for a digit, and a leading one for a digit below 8.
byte_digit : (c : ℕ) → c < 256 → eqb (decoding c) 255 ≡ false → decoding c < 32
unfolding passes_below decoding
byte_digit c h e =
    ground (arith, passes 256 (λ x. eqb (decoding x) 255 || leb (decoding x) 31) c refl h)

lead_digit : (c : ℕ) → c ≤ 55 → eqb (decoding c) 255 ≡ false → decoding c < 8
unfolding passes_below decoding
lead_digit c h e =
    ground (arith, passes 56 (λ x. eqb (decoding x) 255 || leb (decoding x) 7) c refl (omega arith))

grows : (ds : List ℕ) (n : ℕ) → n ≤ number 32 n ds
grows [] n = omega arith
grows (d ∷ ds) n = omega (arith, grows ds (n * 32 + d))

shift_in_is :
    (n c : ℕ) → decoding c < 32 → n * 32 + decoding c < 2 ^ 64 → shift_in n c ≡ n * 32 + decoding c
shift_in_is n c h small =
    let fits : n * 2 ^ 5 % 2 ^ 64 ≡ n * 32 = omega arith in
    ap (λ m. bit_or m (decoding c)) fits ∙ join32 n (decoding c) h

-- While 64 bits are enough, the loop of `Timestamp` reads the number of the digits.
stamp-number :
    (cs rest : Bytes) (k n : ℕ)
    → AreBelow 32 (map decoding cs)
    → length cs ≡ k
    → number 32 n (map decoding cs) < 2 ^ 64
    → stamp k n (cs ++ rest) ≡ number 32 n (map decoding cs)
unfolding stamp
stamp-number [] rest zero n h l small = refl
stamp-number [] rest (suc k) n h l small = absurd (omega arith)
stamp-number (c ∷ cs) rest zero n h l small = absurd (omega arith)
stamp-number (c ∷ cs) rest (suc k) n (hc, h) l small =
    let fits : n * 32 + decoding c < 2 ^ 64 =
      omega (arith, grows (map decoding cs) (n * 32 + decoding c)) in
    ap (λ m. stamp k m (cs ++ rest)) (shift_in_is n c hc fits)
    ∙ stamp-number cs rest k (n * 32 + decoding c) h (omega arith) small

-- The digits of `encode` are read back.
decoded : (ds : List ℕ) → AreBelow 32 ds → map decoding (map encoding ds) ≡ ds
decoded [] h = refl
decoded (d ∷ ds) (hd, h) = rw (decoding-encoding d hd, decoded ds h) refl

-- The 26 digits of an identifier, read in base 32, are the number of the 128 bits that it encodes: the
-- time, cut to 48 bits, and the ten bytes of entropy after it.
pub encode-number :
    (ms : ℕ) (e : Bytes)
    → IsEntropy e
    → number 32 0 (map decoding (encode ms e)) ≡ number 256 (ms % 2 ^ 48) e
unfolding encode
encode-number ms e h =
    ap (number 32 0) (decoded (id_digits ms e) (id_digits-IsDigits ms e h).all_small)
    ∙ id_digits-number ms e h

encoded_valid : (ds : List ℕ) → AreBelow 32 ds → all in_alphabet (map encoding ds) ≡ true
unfolding all
encoded_valid [] h = refl
encoded_valid (d ∷ ds) (hd, h) = ground (arith, decoding-encoding d hd, encoded_valid ds h)

encoded-length : (ds : List ℕ) → length (map encoding ds) ≡ length ds
encoded-length [] = refl
encoded-length (d ∷ ds) = ap suc (encoded-length ds)

lead_encoding : (d : ℕ) → d < 8 → leb (encoding d) 55 ≡ true
unfolding passes_below encoding
lead_encoding d h = passes 8 (λ x. leb (encoding x) 55) d refl h

encode-valid : (ms : ℕ) (e : Bytes) → IsEntropy e → valid (encode ms e) ≡ true
unfolding encode valid
encode-valid ms e h =
    let d = id_digits-IsDigits ms e h in
    let m = masks (ms_byte ms 40) (byte_small ms 40) in
    ground (
      arith,
      encoded-length (id_digits ms e),
      d.has_length,
      encoded_valid (id_digits ms e) d.all_small,
      lead_encoding (shift_right (bit_and (ms_byte ms 40) 224) 5)
          (omega (arith, m.top3, byte_small ms 40)),
    )

-- The ten digits of a time.
abbrev time_digits : ℕ → List ℕ
time_digits ms =
    head_digits (ms_byte ms 40)
    ++ block_digits (ms_byte ms 32) (ms_byte ms 24) (ms_byte ms 16) (ms_byte ms 8) (ms_byte ms 0)

time_digits_small : (ms : ℕ) → AreBelow 32 (time_digits ms)
time_digits_small ms =
    let m = masks (ms_byte ms 40) (byte_small ms 40) in
    (
      omega (arith, m.top3),
      (
        omega (arith, m.low5),
        block_small (ms_byte ms 32) (ms_byte ms 24) (ms_byte ms 16) (ms_byte ms 8) (ms_byte ms 0)
            (byte_small ms 32) (byte_small ms 24) (byte_small ms 16) (byte_small ms 8)
            (byte_small ms 0),
      ),
    )

time_digits-number : (ms : ℕ) → number 32 0 (time_digits ms) ≡ ms % 2 ^ 48
time_digits-number ms =
    block_number (number 32 0 (head_digits (ms_byte ms 40))) (ms_byte ms 32) (ms_byte ms 24)
      (ms_byte ms 16) (ms_byte ms 8) (ms_byte ms 0) (byte_small ms 32) (byte_small ms 24)
      (byte_small ms 16) (byte_small ms 8) (byte_small ms 0)
    ∙ (ap
          (λ n.
            number 256 n
              (ms_byte ms 32 ∷ ms_byte ms 24 ∷ ms_byte ms 16 ∷ ms_byte ms 8 ∷ ms_byte ms 0 ∷ []))
          (head-number (ms_byte ms 40) (byte_small ms 40))
        ∙ ms_bytes-number ms)

encoded_stamp : (ms : ℕ) (e : Bytes) → stamp 10 0 (encode ms e) ≡ ms % 2 ^ 48
unfolding encode blocks
encoded_stamp ms e =
    let same = decoded (time_digits ms) (time_digits_small ms) in
    let is = ap (number 32 0) same ∙ time_digits-number ms in
    stamp-number (map encoding (time_digits ms)) (map encoding (blocks e)) 10 0
      (subst (AreBelow 32) (sym same) (time_digits_small ms)) refl (omega (arith, is))
    ∙ is

-- An identifier that `encode` makes is valid, and `Timestamp` reads its time back, cut to 48 bits.
pub timestamp-encode :
    (ms : ℕ) (e : Bytes) → IsEntropy e → timestamp (encode ms e) ≡ some (ms % 2 ^ 48)
unfolding timestamp
timestamp-encode ms e h = rw (encode-valid ms e h) (ap some (encoded_stamp ms e))

in_digit : (c : ℕ) → c < 256 → in_alphabet c ≡ true → decoding c < 32
in_digit c h e = byte_digit c h (ground arith)

small_digits :
    (cs : Bytes) → AreBelow 256 cs → all in_alphabet cs ≡ true → AreBelow 32 (map decoding cs)
unfolding all
small_digits [] q ok = tt
small_digits (c ∷ cs) (qc, q) ok = (in_digit c qc (ground arith), small_digits cs q (ground arith))

first_small :
    (c : ℕ) (cs : Bytes) → all in_alphabet (c ∷ cs) ≡ true → leads (c ∷ cs) ≡ true → decoding c < 8
unfolding all
first_small c cs ok low = lead_digit c (ground arith) (ground arith)

ten_below :
    (a b c d e f g h i j : ℕ)
    → a < 8
    → AreBelow 32 (b ∷ c ∷ d ∷ e ∷ f ∷ g ∷ h ∷ i ∷ j ∷ [])
    → number 32 0 (a ∷ b ∷ c ∷ d ∷ e ∷ f ∷ g ∷ h ∷ i ∷ j ∷ []) < 2 ^ 48
ten_below a b c d e f g h i j p (qb, (qc, (qd, (qe, (qf, (qg, (qh, (qi, (qj, q))))))))) =
    omega arith

bounded :
    (s : Bytes)
    → AreBelow 256 s
    → length s ≡ 26
    → all in_alphabet s ≡ true
    → leads s ≡ true
    → stamp 10 0 s < 2 ^ 48
bounded (a ∷ b ∷ c ∷ d ∷ e ∷ f ∷ g ∷ h ∷ i ∷ j ∷ rest) q l ok low =
    let small = small_digits (a ∷ b ∷ c ∷ d ∷ e ∷ f ∷ g ∷ h ∷ i ∷ j ∷ rest) q ok in
    let (da, (db, (dc, (dd, (de, (df, (dg, (dh, (di, (dj, _)))))))))) = small in
    let below =
      ten_below (decoding a) (decoding b) (decoding c) (decoding d) (decoding e) (decoding f)
        (decoding g) (decoding h) (decoding i) (decoding j) (first_small a _ ok low)
        (db, (dc, (dd, (de, (df, (dg, (dh, (di, (dj, tt))))))))) in
    let is =
      stamp-number (a ∷ b ∷ c ∷ d ∷ e ∷ f ∷ g ∷ h ∷ i ∷ j ∷ []) rest 10 0
        (da, (db, (dc, (dd, (de, (df, (dg, (dh, (di, (dj, tt)))))))))) refl
        (omega (arith, below)) in
    rw is below
bounded s q l ok low = absurd (omega arith)

valid_parts :
    (s : Bytes) → valid s ≡ true → (length s ≡ 26) × (all in_alphabet s ≡ true) × (leads s ≡ true)
unfolding valid
valid_parts s v = ground arith

-- What `Timestamp` reads is below 2^48, whatever text it accepts.
pub timestamp-Bound : (s : Bytes) (ms : ℕ) → AreBelow 256 s → timestamp s ≡ some ms → ms < 2 ^ 48
unfolding timestamp
timestamp-Bound s ms q e = elim (Bool-cases (valid s)) [
  | inl v ↦
      let (l, ok, low) = valid_parts s v in
      let is : stamp 10 0 s ≡ ms = ground arith in subst (λ n. n < 2 ^ 48) is (bounded s q l ok low)
  | inr v ↦ absurd (ground arith)
]
