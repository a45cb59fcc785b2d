-- ===== src/Commit/Leb128/Canonical.antt =====
-- Lemmas on the bytes that `read_u64` accepts, packages/coln-store/src/commit/leb128.rs.
use native.Mathlib.Decide.{dec_lt}
use coln.Prelude.{
  ℕ, zero, suc, ◌+◌, ◌-◌, ◌*◌, ◌/◌, ◌%◌, ◌^◌, ◌<◌, ◌≤◌, ◌≡◌, refl, sym, ap, ◌∙◌, subst, inl, inr,
  String, List, [], ◌∷◌, ◌++◌, arith,
}
use coln.Prelude.Tests.{ltb, leb, Bool-cases}
use coln.Prelude.Lists.{length, drop, take, drop-drop}
use coln.Commit.Codec.{
  Parsed, ok, ok-injective, ok_of_bind, ◌>>=◌, bad_format, read_slice, read_u8, first_byte,
}
use coln.Commit.Leb128.{
  Round, finished, too_large, overlong, more, round, read_u64_loop, read_u64, max_rounds,
}
use coln.Commit.Leb128.Format.{IsUnsigned}
use coln.Commit.Leb128.RoundTrip.{pow_mono, shifted}

-- Every number is a byte.
abbrev pub AllBytes : List ℕ → Type 0
AllBytes [] = Unit
AllBytes (byte ∷ bytes) = (byte < 256) × AllBytes bytes

AllBytes-drop : (n : ℕ) (bytes : List ℕ) → AllBytes bytes → AllBytes (drop n bytes)
AllBytes-drop zero bytes all = all
AllBytes-drop (suc n) [] all = tt
AllBytes-drop (suc n) (byte ∷ bytes) all = AllBytes-drop n bytes all.1

-- The byte that was read stands at the position.
record Stands (bytes : List ℕ) (at : ℕ) (got : ℕ × ℕ) : Type 0 where
  rest : List ℕ
  here : drop at bytes ≡ got.0 ∷ rest
  after : got.1 ≡ at + 1

first_of :
    (bytes ahead : List ℕ) (at : ℕ) (got : ℕ × ℕ)
    → drop at bytes ≡ ahead
    → first_byte (take 1 ahead, at + 1) ≡ ok got
    → Stands bytes at got
first_of bytes [] at got e f = absurd (cc)
first_of bytes (byte ∷ rest) at got e f =
    subst (Stands bytes at) (ok-injective _ _ f) (record { rest = rest; here = e; after = refl })

read_u8-Stands :
    (bytes : List ℕ) (at : ℕ) (ctx : String) (got : ℕ × ℕ)
    → read_u8 bytes at ctx ≡ ok got
    → Stands bytes at got
unfolding read_u8 read_slice
read_u8-Stands bytes at ctx got e = elim (Bool-cases (leb (2 ^ 64) (at + 1))) [
  | inl over ↦ absurd (ground (arith, e, over))
  | inr inside ↦ elim (Bool-cases (ltb (length bytes) (at + 1))) [
    | inl short ↦ absurd (ground (arith, e, inside, short))
    | inr long ↦
        let slice : read_slice bytes at 1 ctx ≡ ok (take 1 (drop at bytes), at + 1) =
          ground (arith, inside, long) in
        first_of bytes (drop at bytes) at got refl (ap (λ m. m >>= first_byte) (sym slice) ∙ e)
  ]
]

-- What a round that goes on or ends says of the byte.
round-finished :
    (shift byte : ℕ)
    → round shift byte ≡ finished
    → (byte < 128) × (64 < shift → byte ≤ 1) × (7 < shift → 0 < byte)
unfolding round
round-finished shift byte e =
    (ground (arith, e), λ h. ground (arith, e, h), λ h. ground (arith, e, h))

round-more : (shift byte : ℕ) → round shift byte ≡ more → (128 ≤ byte) × (shift ≤ 64)
unfolding round
round-more shift byte e = (ground (arith, e), ground (arith, e))

small_product : (r b p : ℕ) → b < 128 → p ≤ 2 ^ 57 → r < p → r + b * p < 2 ^ 64
small_product r b p h k l = grind arith

bit_product : (r b p : ℕ) → b ≤ 1 → p ≤ 2 ^ 63 → r < p → r + b * p < 2 ^ 64
bit_product r zero p h k l = omega (arith, k, l)
bit_product r (suc zero) p h k l = omega (arith, k, l)
bit_product r (suc (suc b)) p h k l = absurd (omega (arith, h))

last_fits :
    (r b s : ℕ) → r < 2 ^ s → s ≤ 63 → b < 128 → (64 < s + 7 → b ≤ 1) → r + b * 2 ^ s < 2 ^ 64
last_fits r b s start inside low top = elim (dec_lt 64 (s + 7)) [
  | yes late ↦ bit_product r b (2 ^ s) (top late) (pow_mono s 63 inside) start
  | no early ↦ small_product r b (2 ^ s) low (pow_mono s 57 (omega (arith, early))) start
]

next_start : (r g s : ℕ) → r < 2 ^ s → g < 128 → r + g * 2 ^ s < 2 ^ (s + 7)
next_start r g s start low =
    let all : (127 - g) + g ≡ 127 = omega (arith, low) in
    rw (shifted s) (omega (arith, start, ap (λ (t : ℕ). t * 2 ^ s) all))

-- From `at` on stands the encoding of what the loop adds to `r`.
record Encodes (bytes : List ℕ) (at r s : ℕ) (got : ℕ × ℕ) : Type 0 where
  value : ℕ
  part : List ℕ
  rest : List ℕ
  unsigned : IsUnsigned value part
  here : drop at bytes ≡ part ++ rest
  after : got.1 ≡ at + length part
  sum : got.0 ≡ r + value * 2 ^ s
  fits : got.0 < 2 ^ 64
  positive : 0 < s → 0 < value

module _ (bytes : List ℕ) (ctx : String) (at r s byte : ℕ) (rest : List ℕ)
    (here : drop at bytes ≡ byte ∷ rest) (start : r < 2 ^ s) (got : ℕ × ℕ) where
  abbrev group : ℕ
  group = byte % 128 * 2 ^ s % 2 ^ 64

  at_end :
      s ≤ 63
      → round (s + 7) byte ≡ finished
      → ok (r + group, at + 1) ≡ ok got
      → Encodes bytes at r s got
  at_end inside e same =
      let said = round-finished (s + 7) byte e in
      let fit = last_fits r byte s start inside said.0 said.1 in
      let low : byte % 128 ≡ byte = omega (arith, said.0) in
      let plain : group ≡ byte * 2 ^ s = rw low (omega (arith, fit)) in
      subst (Encodes bytes at r s) (ok-injective _ _ same) (record {
        value = byte;
        part = byte ∷ [];
        rest = rest;
        unsigned = IsUnsigned.last said.0;
        here = here;
        after = refl;
        sum = ap (λ (g : ℕ). r + g) plain;
        fits = omega (arith, fit, plain);
        positive = λ later. said.2 (omega (arith, later));
      })

  going_on :
      128 ≤ byte
      → byte < 256
      → s ≤ 56
      → Encodes bytes (at + 1) (r + group) (s + 7) got
      → Encodes bytes at r s got
  going_on high octet early next =
      let g = byte % 128 in
      let v = g + 128 * next.value in
      let small =
        small_product 0 g (2 ^ s) (omega arith) (pow_mono s 57 (omega (arith, early)))
          (omega (arith, start)) in
      let plain : group ≡ g * 2 ^ s = omega (arith, small) in
      let quotient : next.value ≡ v / 128 = omega arith in
      let byte_e : v % 128 + 128 ≡ byte = omega (arith, high, octet) in
      let nonzero : 0 < next.value = next.positive (omega arith) in
      let moved : drop (at + 1) bytes ≡ rest = drop-drop at 1 bytes ∙ ap (drop 1) here in
      record {
        value = v;
        part = byte ∷ next.part;
        rest = next.rest;
        unsigned =
            subst (λ (b : ℕ). IsUnsigned v (b ∷ next.part)) byte_e
              (IsUnsigned.more (omega (arith, nonzero))
                (subst (λ (q : ℕ). IsUnsigned q next.part) quotient next.unsigned));
        here = here ∙ ap (λ tail. byte ∷ tail) (sym moved ∙ next.here);
        after = omega (arith, next.after);
        sum = next.sum ∙ rw (plain, shifted s) (omega arith);
        fits = next.fits;
        positive = λ later. omega (arith, nonzero);
      }

  -- Of the ends of a round only one gives a number, and one goes on.
  by_round :
      (later : Parsed (ℕ × ℕ)) (o : Round)
      → byte < 256
      → (k : ℕ) → s ≡ 7 * k
      → s ≤ 63
      → (later ≡ ok got
          → s ≤ 56
          → r + group < 2 ^ (s + 7)
          → Encodes bytes (at + 1) (r + group) (s + 7) got)
      → round (s + 7) byte ≡ o
      → elim o [
        | finished ↦ ok (r + group, at + 1)
        | too_large ↦ bad_format "leb128 too large while reading " ctx
        | overlong ↦ bad_format "overlong leb128 while reading " ctx
        | more ↦ later
      ]
        ≡ ok got
      → Encodes bytes at r s got
  by_round later finished octet k sevens inside next e same = at_end inside e same
  by_round later too_large octet k sevens inside next e same = absurd (cc)
  by_round later overlong octet k sevens inside next e same = absurd (cc)
  by_round later more octet k sevens inside next e same =
      let said = round-more (s + 7) byte e in
      let early : s ≤ 56 = omega (arith, said.1, sevens) in
      let g = byte % 128 in
      let small =
        small_product 0 g (2 ^ s) (omega arith) (pow_mono s 57 (omega (arith, early)))
          (omega (arith, start)) in
      let plain : group ≡ g * 2 ^ s = omega (arith, small) in
      let below : r + group < 2 ^ (s + 7) =
        omega (arith, plain, next_start r g s start (omega arith)) in
      going_on said.0 octet early (next same early below)

module _ (bytes : List ℕ) (ctx : String) (all : AllBytes bytes) (got : ℕ × ℕ) where
  read_u64_loop-Encodes :
      (rounds k r s at : ℕ)
      → s ≡ 7 * k
      → s ≤ 63
      → r < 2 ^ s
      → read_u64_loop rounds bytes at ctx r s ≡ ok got
      → Encodes bytes at r s got
  unfolding read_u64_loop
  read_u64_loop-Encodes zero k r s at sevens inside start e = absurd (cc)
  read_u64_loop-Encodes (suc rounds) k r s at sevens inside start e =
      let (first, e₁, e₂) = ok_of_bind (read_u8 bytes at ctx) _ got e in
      let stands = read_u8-Stands bytes at ctx first e₁ in
      let octet : first.0 < 256 = (subst AllBytes stands.here (AllBytes-drop at bytes all)).0 in
      let position : first.1 ≡ at + 1 = stands.after in
      let r' = r + first.0 % 128 * 2 ^ s % 2 ^ 64 in
      let e₃ =
        subst
          (λ (n : ℕ).
            elim (round (s + 7) first.0) as (λ _. Parsed (ℕ × ℕ)) [
              | finished ↦ ok (r', n)
              | too_large ↦ bad_format "leb128 too large while reading " ctx
              | overlong ↦ bad_format "overlong leb128 while reading " ctx
              | more ↦ read_u64_loop rounds bytes n ctx r' (s + 7)
            ]
            ≡ ok got)
          position e₂ in
      by_round bytes ctx at r s first.0 stands.rest stands.here start got
        (read_u64_loop rounds bytes (at + 1) ctx r' (s + 7)) (round (s + 7) first.0) octet k sevens
        inside
        (λ l early below.
          read_u64_loop-Encodes rounds (suc k) r' (s + 7) (at + 1) (omega (arith, sevens))
            (omega (arith, early)) below l)
        refl e₃

  -- Whatever number `read_u64` gives is below 2^64, and the bytes that it took are the LEB128 encoding of
  -- that number with no byte more than needed: a number has one encoding that is accepted.
  pub read_u64-IsUnsigned :
      (at : ℕ)
      → read_u64 bytes at ctx ≡ ok got
      → (got.0 < 2 ^ 64)
        × ((part : List ℕ) × (rest : List ℕ) × IsUnsigned got.0 part
            × (drop at bytes ≡ part ++ rest)
            × (got.1 ≡ at + length part))
  unfolding read_u64
  read_u64-IsUnsigned at e =
      let c =
        read_u64_loop-Encodes max_rounds 0 0 0 at (omega arith) (omega arith) (omega arith) e in
      let same : c.value ≡ got.0 = omega (arith, c.sum) in
      (
        c.fits,
        (c.part, c.rest, subst (λ (v : ℕ). IsUnsigned v c.part) same c.unsigned, c.here, c.after),
      )
