-- ===== src/Plan/Tokens/Distinct.antt =====
-- plan.go: the tokens of bytes, `patternToken` on an exact plan.
use casei.Base.{
  ℕ, zero, suc, ◌+◌, ◌^◌, ◌<◌, ◌≤◌, arith, ◌==◌, length, replicate, byte_at, length-set, get_or-set,
  ◌≡◌, ◌≢◌, refl, ◌∙◌, Bool-cases, inl, inr,
}
use casei.Plan.Tokens.{Tokens, byte_token, no_tokens}

-- The table has 256 entries; a token is less than the next one, and no two bytes have the same one.
pub record Distinct (t : Tokens) : Type 0 where
  pub size : length t.byte_tokens ≡ 256
  pub positive : 1 ≤ t.next_token
  pub below : (b : ℕ) → byte_at t.byte_tokens b < t.next_token
  pub own :
      (a b : ℕ)
      → byte_at t.byte_tokens a ≢ 0
      → byte_at t.byte_tokens a ≡ byte_at t.byte_tokens b
      → a ≡ b

-- The entries of the other bytes stay, a byte keeps the token that it has, and the byte that is
-- asked for has the token given.
pub record Extends (t : Tokens) (value token : ℕ) (t' : Tokens) : Type 0 where
  pub distinct : Distinct t'
  pub kept :
      (b : ℕ) → byte_at t.byte_tokens b ≢ 0 → byte_at t'.byte_tokens b ≡ byte_at t.byte_tokens b
  pub others : (b : ℕ) → b ≢ value → byte_at t'.byte_tokens b ≡ byte_at t.byte_tokens b
  pub given : byte_at t'.byte_tokens value ≡ token
  pub real : token ≢ 0
  pub grows : t'.next_token ≤ t.next_token + 1

-- If the table has 256 entries, every token in it is below nextToken, which is at least 1, no
-- two bytes have the same token other than 0, and tokens are left, then for a byte the token
-- given is not 0 and is the one that the byte has afterwards, which is the one that it had if
-- that was not 0; the entries of all other bytes stay; nextToken grows by one at most; and the
-- table is again as it was asked to be.
pub byte_token-Extends :
    (t : Tokens) (value : ℕ)
    → Distinct t
    → value < 256
    → t.next_token + 1 < 2 ^ 32
    → Extends t value (byte_token t value).0 (byte_token t value).1
unfolding byte_token
byte_token-Extends t value d small room =
    let size = d.size in
    let at = λ (j : ℕ). get_or-set t.byte_tokens value j t.next_token 0 (omega arith) in
    elim (Bool-cases (byte_at t.byte_tokens value == 0)) [
      | inl fresh ↦ rw fresh (record {
        distinct = record {
          size = length-set t.byte_tokens value t.next_token ∙ size;
          positive = ground arith;
          below = λ b. ground (arith, at b, d.below b);
          own = λ a b ne e. ground (arith, at a, at b, d.below a, d.below b, d.own a b, d.positive);
        };
        kept = λ b ne. ground (arith, at b);
        others = λ b ne. ground (arith, at b);
        given = ground (arith, at value);
        real = λ e. ground (arith, d.positive);
        grows = ground arith;
      })
      | inr known ↦ rw known (record {
        distinct = d;
        kept = λ b ne. refl;
        others = λ b ne. refl;
        given = refl;
        real = λ e. ground arith;
        grows = omega arith;
      })
    ]

table_zero : (n b : ℕ) → byte_at (replicate n 0) b ≡ 0
table_zero zero b = refl
table_zero (suc n) zero = refl
table_zero (suc n) (suc b) = table_zero n b

pub no_tokens-Distinct : Distinct no_tokens
no_tokens-Distinct = record {
  size = refl;
  positive = omega arith;
  below = λ b. let z = table_zero 256 b in omega arith;
  own = λ a b ne e. let z = table_zero 256 a in absurd (ne z);
}
