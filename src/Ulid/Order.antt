-- ===== src/Ulid/Order.antt =====
-- One call of a generator, and the identifier that it follows.
use ferry_cli.Base.{
  ℕ, zero, suc, ◌+◌, ◌%◌, ◌^◌, ◌≤◌, ◌<◌, ◌≡◌, refl, ◌∙◌, ap, sym, subst, Bool, true, false, Option,
  none, some, [], ◌∷◌, map, length, arith, ltb, not, ◌||◌, eqb_iff, if◌then◌else◌,
}
use ferry_cli.Api.Target.{Bytes}
use ferry_cli.Ulid.{
  decoding, encode, increment, increment_byte, Generator, Draw, filled, broken, drawn, stepped,
  new_id,
}
use ferry_cli.Ulid.Digits.{number, AreBelow, IsEntropy}
use ferry_cli.Ulid.Times.{encode-number}
use ferry_cli.Ulid.Entropy.{carried, increment-number, increment-IsBytes, later}

-- A generator that has handed out the identifier of its time and its entropy.
pub record IsRunning (g : Generator) : Type 0 where
  pub is_seeded : g.seeded ≡ true
  pub in_range : g.last_ms < 2 ^ 48
  pub is_entropy : IsEntropy g.last_rand

-- Entropy that was read is ten bytes.
abbrev pub IsRead : Draw → Type 0
IsRead (filled bs) = IsEntropy bs
IsRead (broken bs) = Unit

-- The 128 bits that an identifier stands for.
abbrev pub value : Bytes → ℕ
value id = number 32 0 (map decoding id)

abbrev pub last_id : Generator → Bytes
last_id g = encode g.last_ms g.last_rand

-- The identifier that follows that of `g`, which is that of the generator after it.
pub record IsNext (g g' : Generator) (id : Bytes) : Type 0 where
  pub is_last : id ≡ last_id g'
  pub runs : IsRunning g'
  pub greater : value (last_id g) < value id

small_value : (g : Generator) → IsRunning g → value (last_id g) ≡ number 256 g.last_ms g.last_rand
small_value g r =
    let fits : g.last_ms % 2 ^ 48 ≡ g.last_ms = omega (arith, r.in_range) in
    encode-number g.last_ms g.last_rand r.is_entropy ∙ ap (λ m. number 256 m g.last_rand) fits

greater-IsNext :
    (g g' : Generator)
    → IsRunning g
    → IsRunning g'
    → number 256 g.last_ms g.last_rand < number 256 g'.last_ms g'.last_rand
    → IsNext g g' (last_id g')
greater-IsNext g g' r r' lt = record {
  is_last = refl;
  runs = r';
  greater = omega (arith, small_value g r, small_value g' r');
}

abbrev NextOf : Generator → Generator × Option Bytes → Type 0
NextOf g (g', none) = Unit
NextOf g (g', some id) = IsNext g g' id

drawn-NextOf :
    (g : Generator) (ms : ℕ) (d : Draw)
    → IsRunning g
    → ms < 2 ^ 48
    → IsRead d
    → g.last_ms < ms
    → NextOf g (drawn g ms d)
drawn-NextOf g ms (broken bs) r small h lt = tt
drawn-NextOf g ms (filled bs) r small (l, a) lt =
    greater-IsNext g (record { last_ms = ms; last_rand = bs; seeded = true }) r
      (record { is_seeded = refl; in_range = small; is_entropy = (l, a) })
      (later g.last_rand bs g.last_ms ms (r.is_entropy.0 ∙ sym l) r.is_entropy.1 lt)

stepped-NextOf :
    (g : Generator) (s : Bytes × Bool)
    → IsRunning g
    → IsEntropy s.0
    → number 256 (carried g.last_ms s.1) s.0 ≡ number 256 g.last_ms g.last_rand + 1
    → NextOf g (stepped g s)
stepped-NextOf g (bs, true) r h e = tt
stepped-NextOf g (bs, false) r h e =
    greater-IsNext g (record g { last_rand = bs }) r
      (record { is_seeded = r.is_seeded; in_range = r.in_range; is_entropy = h }) (omega (arith, e))

if-NextOf :
    (g : Generator) (b : Bool) (x y : Generator × Option Bytes)
    → (b ≡ true → NextOf g x)
    → (b ≡ false → NextOf g y)
    → NextOf g (if b then x else y)
if-NextOf g true x y p q = p refl
if-NextOf g false x y p q = q refl

result-NextOf :
    (g : Generator) (ms : ℕ) (d : Draw)
    → IsRunning g
    → ms < 2 ^ 48
    → IsRead d
    → NextOf g (new_id g ms d)
unfolding new_id
result-NextOf g ms d r small h =
    if-NextOf g (not g.seeded || ltb g.last_ms ms) _ _
      (λ e. drawn-NextOf g ms d r small h (ground (arith, r.is_seeded)))
      (λ e.
        let (l, a) = increment-IsBytes g.last_rand r.is_entropy.1 in
        stepped-NextOf g (increment g.last_rand) r (l ∙ r.is_entropy.0, a)
          (increment-number g.last_rand g.last_ms r.is_entropy.1))

-- What `New` returns, when it does not refuse, is the identifier of the time and the entropy that it
-- leaves, and the number that it stands for is greater than that of those that it found.
pub new_id-IsNext :
    (g g' : Generator) (ms : ℕ) (d : Draw) (id : Bytes)
    → IsRunning g
    → ms < 2 ^ 48
    → IsRead d
    → new_id g ms d ≡ (g', some id)
    → IsNext g g' id
new_id-IsNext g g' ms d id r small h e = subst (NextOf g) e (result-NextOf g ms d r small h)

abbrev repeated : ℕ → ℕ → Bytes
repeated x zero = []
repeated x (suc n) = x ∷ repeated x n

wrapped_byte :
    (x : ℕ) (r : Bytes × Bool)
    → x < 256
    → (increment_byte x r).1 ≡ true
    → (x ≡ 255) × (r.1 ≡ true) × ((increment_byte x r).0 ≡ 0 ∷ r.0)
wrapped_byte x (xs, true) h e =
    let zero_byte : (x + 1) % 256 ≡ 0 = (eqb_iff ((x + 1) % 256) 0).0 e in
    (omega arith, refl, ap (λ y. y ∷ xs) zero_byte)
wrapped_byte x (xs, false) h e = absurd (ground arith)

-- The step that runs off the bytes was at the last value, and leaves the first.
wrapped :
    (xs : Bytes)
    → AreBelow 256 xs
    → (increment xs).1 ≡ true
    → (xs ≡ repeated 255 (length xs)) × ((increment xs).0 ≡ repeated 0 (length xs))
unfolding increment
wrapped [] h e = (refl, refl)
wrapped (x ∷ xs) (hx, h) e =
    let (full, more, zeros) = wrapped_byte x (increment xs) hx e in
    let (p, q) = wrapped xs h more in (rw full (ap (λ ys. 255 ∷ ys) p), zeros ∙ ap (λ ys. 0 ∷ ys) q)

-- The branch without a draw.
undrawn :
    (g : Generator) (ms : ℕ) (d : Draw)
    → IsRunning g
    → ms ≤ g.last_ms
    → new_id g ms d ≡ stepped g (increment g.last_rand)
unfolding new_id
undrawn g ms d r le =
    let held : (not g.seeded || ltb g.last_ms ms) ≡ false = ground (arith, r.is_seeded) in
    ap (λ b. if b then drawn g ms d else stepped g (increment g.last_rand)) held

stepped_refused :
    (g : Generator) (s : Bytes × Bool) (zeros : Bytes)
    → s.0 ≡ zeros
    → s.1 ≡ true
    → stepped g s ≡ (record g { last_rand = zeros }, none)
stepped_refused g (bs, true) zeros e t = ap (λ b. (record g { last_rand = b }, none)) e
stepped_refused g (bs, false) zeros e t = absurd (ground arith)

abbrev first_entropy : Bytes
first_entropy = 0 ∷ 0 ∷ 0 ∷ 0 ∷ 0 ∷ 0 ∷ 0 ∷ 0 ∷ 0 ∷ 1 ∷ []

zeros_step : increment (repeated 0 10) ≡ (first_entropy, false)
unfolding increment
zeros_step = refl

zeros_are_bytes : IsEntropy (repeated 0 10)
zeros_are_bytes = (
  refl,
  (
    omega arith,
    (
      omega arith,
      (
        omega arith,
        (
          omega arith,
          (
            omega arith,
            (omega arith, (omega arith, (omega arith, (omega arith, (omega arith, tt))))),
          ),
        ),
      ),
    ),
  ),
)

first_is_bytes : IsEntropy first_entropy
first_is_bytes = (
  refl,
  (
    omega arith,
    (
      omega arith,
      (
        omega arith,
        (
          omega arith,
          (
            omega arith,
            (omega arith, (omega arith, (omega arith, (omega arith, (omega arith, tt))))),
          ),
        ),
      ),
    ),
  ),
)

-- A `New` that refuses to repeat an identifier has wrapped the entropy all the same: the next `New` of
-- the same time returns an identifier that is smaller than the last one.
pub new_id-Wraps :
    (g : Generator) (ms ms' : ℕ) (d d' : Draw)
    → IsRunning g
    → ms ≤ g.last_ms
    → ms' ≤ g.last_ms
    → (increment g.last_rand).1 ≡ true
    → ((new_id g ms d).1 ≡ none)
      × (id : Bytes) × ((new_id (new_id g ms d).0 ms' d').1 ≡ some id)
      × (value id < value (last_id g))
new_id-Wraps g ms ms' d d' r le le' e =
    let (l, a) = r.is_entropy in
    let (full, zeros) = wrapped g.last_rand a e in
    let full' = full ∙ ap (repeated 255) l in
    let zeros' = zeros ∙ ap (repeated 0) l in
    let refused = undrawn g ms d r le ∙ stepped_refused g (increment g.last_rand) _ zeros' e in
    let g1 = record g { last_rand = repeated 0 10 } in
    let r1 : IsRunning g1 = record {
      is_seeded = r.is_seeded;
      in_range = r.in_range;
      is_entropy = zeros_are_bytes;
    } in
    let r2 : IsRunning (record g { last_rand = first_entropy }) = record {
      is_seeded = r.is_seeded;
      in_range = r.in_range;
      is_entropy = first_is_bytes;
    } in
    let after = undrawn g1 ms' d' r1 le' ∙ ap (stepped g1) zeros_step in
    (
      ap (λ p. p.1) refused,
      encode g.last_ms first_entropy,
      ap (λ p. (new_id p.0 ms' d').1) refused ∙ ap (λ p. p.1) after,
      omega (
        arith,
        small_value g r,
        small_value (record g { last_rand = first_entropy }) r2,
        ap (number 256 g.last_ms) full',
      ),
    )
