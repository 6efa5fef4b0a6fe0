-- ===== src/IfMask/Total.antt =====
-- ifmask.go: the loop of `MatchIfMask` ends on its fuel, for every mask and name.
use ipfw_go.Prelude.{
  ℕ, zero, suc, ◌+◌, ◌*◌, ◌≤◌, ◌<◌, Bool, false, [], ◌∷◌, Option, none, some, Bytes, ◌==◌, ltb,
  if◌then◌else◌, length, ◌≡◌, refl, ap, subst, ◌∙◌, arith, Bool-cases, inl, inr,
}
use ipfw_go.IfMask.Class.{Leaves, range_match-Leaves}
use ipfw_go.IfMask.{
  backslash, RangeResult, malformed, mismatch, matched, range_match, Scan, Round, go_on, give_up,
  resume, advance, literal_byte, escape_round, class_result, class_round, round_at, next_round,
  after_round, mask_loop, mask_run, match_if_mask, is_nil, only_stars,
}

-- What a scan can still do: the bytes that a star may resume at, and the pattern that is left.
abbrev room_of : Bytes → Option (Bytes × Bytes) → ℕ
room_of name none = length name
room_of name (some (p, s)) = length s

abbrev work : ℕ → Scan → ℕ
work k m = room_of m.name m.star * suc k + length m.pattern

abbrev StarFits : ℕ → Bytes → Option (Bytes × Bytes) → Type 0
StarFits k name none = Unit
StarFits k name (some (p, s)) = (length p ≤ k) × (length name ≤ length s)

abbrev Fits : ℕ → Scan → Type 0
Fits k m = (length m.pattern ≤ k) × StarFits k m.name m.star

-- A round goes on with less to do, or ends the loop.
abbrev Shrinks : ℕ → ℕ → Round → Type 0
Shrinks k n give_up = Unit
Shrinks k n (go_on m) = Fits k m × (work k m < n)

mul_suc : (x y : ℕ) → suc x * y ≡ y + x * y
mul_suc x y = omega arith

mul_le : (a b c : ℕ) → a ≤ b → a * c ≤ b * c
mul_le zero b c le = omega arith
mul_le (suc a) zero c le = absurd (omega arith)
mul_le (suc a) (suc b) c le = omega (arith, mul_suc a c, mul_suc b c, mul_le a b c (omega arith))

enough : (n p : ℕ) → n * suc p + p < (n + 1) * (p + 1)
enough n p =
    let a : n + 1 ≡ suc n = omega arith in
    let b : p + 1 ≡ suc p = omega arith in rw (a, b) (omega (arith, mul_suc n (suc p)))

resume-Shrinks :
    (k : ℕ) (name : Bytes) (star : Option (Bytes × Bytes)) (literal n : ℕ)
    → StarFits k name star
    → room_of name star * suc k ≤ n
    → Shrinks k n (resume star literal)
resume-Shrinks k name none literal n f le = tt
resume-Shrinks k name (some (p, [])) literal n f le = tt
resume-Shrinks k name (some (p, c ∷ s)) literal n (fp, fs) le =
    ((fp, (fp, omega arith)), omega (arith, mul_suc (length s) (suc k)))

module _ (k : ℕ) (star : Option (Bytes × Bytes)) (literal c : ℕ) (s : Bytes) (n : ℕ)
    (f : StarFits k (c ∷ s) star) (le : room_of (c ∷ s) star * suc k ≤ n) where
  room_less : room_of s star * suc k ≤ room_of (c ∷ s) star * suc k
  room_less = room_less_of star
    where
      room_less_of : (o : Option (Bytes × Bytes)) → room_of s o * suc k ≤ room_of (c ∷ s) o * suc k
      room_less_of none = omega (arith, mul_suc (length s) (suc k))
      room_less_of (some (p, t)) = omega arith

  star_less : StarFits k s star
  star_less = star_less_of star f
    where
      star_less_of : (o : Option (Bytes × Bytes)) → StarFits k (c ∷ s) o → StarFits k s o
      star_less_of none g = tt
      star_less_of (some (p, t)) (gp, gs) = (gp, omega arith)

  -- One byte of the name is taken, and some of the pattern.
  advance-Shrinks :
      (p : Bytes)
      → length p ≤ k
      → room_of (c ∷ s) star * suc k + length p < n
      → Shrinks k n (advance star literal c s p)
  advance-Shrinks p lp lt = ((lp, star_less), omega (arith, room_less))

  literal_byte-Shrinks :
      (d : ℕ) (p : Bytes)
      → length p ≤ k
      → room_of (c ∷ s) star * suc k + length p < n
      → Shrinks k n (literal_byte star literal c s d p)
  literal_byte-Shrinks d p lp lt = elim (Bool-cases (d == c)) [
    | inl y ↦ rw y (advance-Shrinks p lp lt)
    | inr x ↦ rw x (resume-Shrinks k (c ∷ s) star literal n f le)
  ]

  escape_round-Shrinks :
      (p : Bytes)
      → length p ≤ k
      → room_of (c ∷ s) star * suc k + length p < n
      → Shrinks k n (escape_round star literal c s p)
  escape_round-Shrinks [] lp lt = elim (Bool-cases (c == backslash)) [
    | inl y ↦ rw y (advance-Shrinks [] lp lt)
    | inr x ↦ rw x (resume-Shrinks k (c ∷ s) star literal n f le)
  ]
  escape_round-Shrinks (d ∷ p) lp lt = literal_byte-Shrinks d p (omega arith) (omega arith)

module _ (k : ℕ) (m : Scan) (c : ℕ) (s : Bytes) (n : ℕ) (f : StarFits k (c ∷ s) m.star)
    (le : room_of (c ∷ s) m.star * suc k ≤ n) (named : length m.name ≡ suc (length s)) where
  class_result-Shrinks :
      (p : Bytes) (r : RangeResult)
      → length p ≤ k
      → room_of (c ∷ s) m.star * suc k + length p < n
      → Leaves (length p) r
      → Shrinks k n (class_result m c s p r)
  class_result-Shrinks p (matched rest) lp lt l =
      advance-Shrinks k m.star m.literal c s n f le rest (omega arith) (omega arith)
  class_result-Shrinks p mismatch lp lt l = resume-Shrinks k (c ∷ s) m.star m.literal n f le
  class_result-Shrinks p malformed lp lt l =
      literal_byte-Shrinks k m.star (length p + 1) c s n f le b'[' p lp lt

  class_round-Shrinks :
      (p : Bytes)
      → length p ≤ k
      → room_of (c ∷ s) m.star * suc k + length p < n
      → Shrinks k n (class_round m c s p)
  class_round-Shrinks p lp lt = elim (Bool-cases (ltb m.literal (length p + 1))) [
    | inl y ↦ rw y (class_result-Shrinks p (range_match p c) lp lt (range_match-Leaves p c))
    | inr x ↦ rw x (literal_byte-Shrinks k m.star m.literal c s n f le b'[' p lp lt)
  ]

  room_le : (o : Option (Bytes × Bytes)) → StarFits k (c ∷ s) o → suc (length s) ≤ room_of (c ∷ s) o
  room_le none g = omega arith
  room_le (some (p, t)) (gp, gs) = gs

  star_round :
      (p : Bytes)
      → length p ≤ k
      → room_of (c ∷ s) m.star * suc k + length p < n
      → Shrinks k n (go_on (record m { pattern = p; star = some (p, c ∷ s) }))
  star_round p lp lt = (
    (lp, (lp, omega arith)),
    omega (arith, mul_le (suc (length s)) (room_of (c ∷ s) m.star) (suc k) (room_le m.star f)),
  )

  round_at-Shrinks :
      (p : Bytes)
      → length p ≤ k
      → n ≡ room_of (c ∷ s) m.star * suc k + length p
      → Shrinks k n (round_at m c s p)
  unfolding round_at
  round_at-Shrinks [] lp e = resume-Shrinks k (c ∷ s) m.star m.literal n f le
  round_at-Shrinks (d ∷ p) lp e = elim (Bool-cases (d == b'?')) [
    | inl one ↦ rw one (advance-Shrinks k m.star m.literal c s n f le p (omega arith) (omega arith))
    | inr not_one ↦ elim (Bool-cases (d == b'*')) [
      | inl any_run ↦ rw (not_one, any_run) (star_round p (omega arith) (omega arith))
      | inr not_any ↦ elim (Bool-cases (d == b'[')) [
        | inl class ↦
            rw (not_one, not_any, class) (class_round-Shrinks p (omega arith) (omega arith))
        | inr not_class ↦ elim (Bool-cases (d == backslash)) [
          | inl escape ↦
              rw (not_one, not_any, not_class, escape)
                (escape_round-Shrinks k m.star m.literal c s n f le p (omega arith) (omega arith))
          | inr plain ↦
              rw (not_one, not_any, not_class, plain)
                (literal_byte-Shrinks k m.star m.literal c s n f le d p (omega arith) (omega arith))
        ]
      ]
    ]
  ]

abbrev Ends : Option Bool → Type 0
Ends run = (b : Bool) × (run ≡ some b)

after_round-Ends :
    (k n : ℕ) (loop : Scan → Option Bool) (r : Round)
    → Shrinks k n r
    → ((m : Scan) → Fits k m → work k m < n → Ends (loop m))
    → Ends (after_round loop r)
after_round-Ends k n loop give_up sh rest = (false, refl)
after_round-Ends k n loop (go_on m) (f, lt) rest = rest m f lt

mask_loop-Ends :
    (k fuel : ℕ) (m : Scan) (name : Bytes)
    → m.name ≡ name
    → Fits k m
    → work k m < fuel
    → Ends (mask_loop fuel m)
unfolding mask_loop next_round
mask_loop-Ends k zero m name e f lt = absurd (omega arith)
mask_loop-Ends k (suc fuel) m [] e f lt = (
  only_stars m.pattern,
  ap
      (λ x.
        if is_nil x
        then some (only_stars m.pattern)
        else after_round (mask_loop fuel) (next_round m x))
      e,
)
mask_loop-Ends k (suc fuel) m (c ∷ s) e (fp, fs) lt =
    let w = work k m in
    let (b, run) =
      after_round-Ends k w (mask_loop fuel) (round_at m c s m.pattern)
        (round_at-Shrinks k m c s w (subst (λ x. StarFits k x m.star) e fs)
          (omega (arith, ap (λ x. room_of x m.star * suc k) e)) (ap length e) m.pattern fp
          (ap (λ x. room_of x m.star * suc k + length m.pattern) e))
        (λ m' f' lt'. mask_loop-Ends k fuel m' m'.name refl f' (omega arith)) in
    (
      b,
      ap
            (λ x.
              if is_nil x
              then some (only_stars m.pattern)
              else after_round (mask_loop fuel) (next_round m x))
            e
          ∙ run,
    )

-- Whether an interface name matches a mask is decided: the loop ends for every mask and name, on fuel
-- for each byte of the mask at each byte of the name, and `match_if_mask` is what it returns.
pub mask_run_total :
    (pattern name : Bytes) → mask_run pattern name ≡ some (match_if_mask pattern name)
unfolding mask_run match_if_mask
mask_run_total pattern name =
    let (b, e) =
      mask_loop-Ends (length pattern) ((length name + 1) * (length pattern + 1))
        (record { pattern = pattern; name = name; star = none; literal = 0 }) name refl
        (omega arith, tt) (enough (length name) (length pattern)) in
    rw e refl
