-- ===== src/Access/Order.antt =====
-- The comparison of the evaluator is a strict weak order on rules that allow or deny.
use opendesk_remote.Prelude.{
  ℤ, pos, negsuc, ◌≡◌, ◌⊎◌, Bool, true, false, eq_iff, arith, int_lt, ◌==◌, string_eq,
}
use opendesk_remote.Access.{Rule, less}

-- The two effects that the API stores.
abbrev pub HasEffect : Rule → Type 0
HasEffect r = (r.effect ≡ "allow") ⊎ (r.effect ≡ "deny")

abbrev pub denies : Rule → Bool
denies rule = rule.effect == "deny"

int_lt_asymm : (a b : ℤ) → int_lt a b ≡ true → int_lt b a ≡ false
int_lt_asymm (pos a) (pos b) h = ground arith
int_lt_asymm (pos a) (negsuc b) h = ground arith
int_lt_asymm (negsuc a) (pos b) h = ground arith
int_lt_asymm (negsuc a) (negsuc b) h = ground arith

int_le_trans : (a b c : ℤ) → int_lt b a ≡ false → int_lt c b ≡ false → int_lt c a ≡ false
int_le_trans (pos a) (pos b) (pos c) h k = ground arith
int_le_trans (pos a) (pos b) (negsuc c) h k = ground arith
int_le_trans (pos a) (negsuc b) (pos c) h k = ground arith
int_le_trans (pos a) (negsuc b) (negsuc c) h k = ground arith
int_le_trans (negsuc a) (pos b) (pos c) h k = ground arith
int_le_trans (negsuc a) (pos b) (negsuc c) h k = ground arith
int_le_trans (negsuc a) (negsuc b) (pos c) h k = ground arith
int_le_trans (negsuc a) (negsuc b) (negsuc c) h k = ground arith

int_lt_irrefl : (a : ℤ) → int_lt a a ≡ false
int_lt_irrefl (pos a) = ground arith
int_lt_irrefl (negsuc a) = ground arith

pub not_less_refl : (a : Rule) → less a a ≡ false
unfolding less
not_less_refl a = ground (arith, eq_iff a.effect a.effect, int_lt_irrefl a.priority)

pub less_asymm : (a b : Rule) → HasEffect a → HasEffect b → less a b ≡ true → less b a ≡ false
unfolding less
less_asymm a b ha hb h = ground (
  arith,
  eq_iff a.effect b.effect,
  eq_iff b.effect a.effect,
  eq_iff a.effect "deny",
  eq_iff b.effect "deny",
  eq_iff "allow" "deny",
  int_lt_asymm b.priority a.priority,
)

pub not_less_trans :
    (a b c : Rule)
    → HasEffect a
    → HasEffect b
    → HasEffect c
    → less a b ≡ false
    → less b c ≡ false
    → less a c ≡ false
unfolding less
not_less_trans a b c ha hb hc h k = ground (
  arith,
  eq_iff a.effect b.effect,
  eq_iff b.effect c.effect,
  eq_iff a.effect c.effect,
  eq_iff a.effect "deny",
  eq_iff b.effect "deny",
  eq_iff c.effect "deny",
  eq_iff "allow" "deny",
  int_le_trans c.priority b.priority a.priority,
  int_le_trans a.priority b.priority c.priority,
)

-- A rule that stands before one that denies does so too, and one that does not stand before a
-- rule that does not deny does not deny.
pub denies_of_less :
    (a b : Rule) → HasEffect a → HasEffect b → less a b ≡ true → denies b ≡ true → denies a ≡ true
unfolding less
denies_of_less a b ha hb h d =
    ground (arith, eq_iff a.effect b.effect, eq_iff a.effect "deny", eq_iff b.effect "deny")

pub denies_of_not_less :
    (a b : Rule) → HasEffect a → HasEffect b → less a b ≡ false → denies a ≡ true → denies b ≡ true
unfolding less
denies_of_not_less a b ha hb h d =
    ground (arith, eq_iff a.effect b.effect, eq_iff a.effect "deny", eq_iff b.effect "deny")
