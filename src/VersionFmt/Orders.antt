-- ===== src/VersionFmt/Orders.antt =====
-- Comparison functions: what makes one a total preorder, and how comparisons are put together.
use clair.VersionFmt.Ranks.{
  compare_ranks, compare_ranks_self, compare_ranks_swap, compare_ranks_trans, compare_ranks_range,
  NotAfter, IsSign,
}
use clair.Prelude.{
  Bool, Both, ◌||◌, ℕ, ltb, if◌then◌else◌, ℤ, pos, negsuc, neg, eqb_ℤ, ltb_ℤ, ◌≡◌, arith,
}

pub record IsOrder {ℓ} {A : Type ℓ} (c : A → A → ℤ) : Type ℓ where
  pub range : (a b : A) → IsSign (c a b)
  pub self : (a : A) → c a a ≡ pos 0
  pub swap : (a b : A) → c b a ≡ neg (c a b)
  pub trans : (a b d : A) → NotAfter (c a b) → NotAfter (c b d) → NotAfter (c a d)

-- The second comparison decides where the first one does not.
infixr 30 ◌then_by◌
abbrev pub ◌then_by◌ : ℤ → ℤ → ℤ
c then_by d = if eqb_ℤ c (pos 0) then d else c

abbrev pub compare_ℤ : ℤ → ℤ → ℤ
compare_ℤ a b = if ltb_ℤ a b then negsuc 0 else if ltb_ℤ b a then pos 1 else pos 0

abbrev pub compare_ℕ : ℕ → ℕ → ℤ
compare_ℕ a b = if ltb a b then negsuc 0 else if ltb b a then pos 1 else pos 0

pub compare_ℤ-IsOrder : IsOrder compare_ℤ
compare_ℤ-IsOrder = record {
  range = λ a b. ground arith;
  self = λ a. ground arith;
  swap = λ a b. ground arith;
  trans = λ a b d h k. ground arith;
}

pub compare_ℕ-IsOrder : IsOrder compare_ℕ
compare_ℕ-IsOrder = record {
  range = λ a b. ground arith;
  self = λ a. ground arith;
  swap = λ a b. ground arith;
  trans = λ a b d h k. ground arith;
}

pub compare_ranks-IsOrder : IsOrder compare_ranks
compare_ranks-IsOrder = record {
  range = compare_ranks_range;
  self = compare_ranks_self;
  swap = compare_ranks_swap;
  trans = compare_ranks_trans;
}

-- Values are compared by what a function makes of them.
pub IsOrder-by {ℓ κ} :
    {A : Type ℓ} {B : Type κ} {c : B → B → ℤ} (f : A → B)
    → IsOrder c
    → IsOrder (λ a b. c (f a) (f b))
IsOrder-by f o = record {
  range = λ a b. o.range (f a) (f b);
  self = λ a. o.self (f a);
  swap = λ a b. o.swap (f a) (f b);
  trans = λ a b d. o.trans (f a) (f b) (f d);
}

pub IsOrder-then_by {ℓ} :
    {A : Type ℓ} {c d : A → A → ℤ} → IsOrder c → IsOrder d → IsOrder (λ a b. c a b then_by d a b)
IsOrder-then_by o p = record {
  range = λ a b. ground (arith, o.range a b, p.range a b);
  self = λ a. ground (arith, o.self a, p.self a);
  swap = λ a b. ground (arith, o.range a b, o.swap a b, p.swap a b, p.range a b);
  trans = λ a b e h k. ground (
    arith,
    o.range a b,
    o.range b e,
    o.range a e,
    o.swap a b,
    o.swap b e,
    o.swap a e,
    o.trans a b e,
    o.trans b e a,
    o.trans e a b,
    p.trans a b e,
  );
}

-- The chains of tests in the two functions Compare; f is what a result is wrapped in.
module _ {ℓ} {A : Type ℓ} (f : ℤ → A) where
  pub level_tests :
      (v_min v_max w_min w_max : Bool) (x : A) (y : ℤ)
      → ¬ (Both v_min w_min)
      → ¬ (Both v_max w_max)
      → ¬ (Both w_min w_max)
      → x ≡ f y
      → (if v_min || w_max then f (negsuc 0) else if w_min || v_max then f (pos 1) else x)
        ≡ f (
            compare_ℕ
              (if v_min then 0 else if v_max then 2 else 1)
              (if w_min then 0 else if w_max then 2 else 1)
            then_by y)
  level_tests v_min v_max w_min w_max x y h k l e = ground arith

  pub epoch_tests :
      (v w : ℤ) (x : A) (y : ℤ)
      → x ≡ f y
      → (if ltb_ℤ w v then f (pos 1) else if ltb_ℤ v w then f (negsuc 0) else x)
        ≡ f (compare_ℤ v w then_by y)
  epoch_tests v w x y h = ground arith
