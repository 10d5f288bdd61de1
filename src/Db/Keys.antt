-- ===== src/Db/Keys.antt =====
-- The two families of keys of src/pkg/controller/db/persistence.go do not meet.
use Prim.Native.Char.{Char, code}
use text.Mathlib.TextLemmas.{append_cancel_left, cons-append, head-eq_of_cons-eq}
use qcontroller.Base.{String, ◌<>◌, ◌≡◌, ◌≢◌, ap, ◌==◌, eq_iff, arith, false, sym, ◌∙◌}

unfoldable pub instance_key : String → String
instance_key name = "instance:" <> name

unfoldable pub hwaddr_key : String → String
hwaddr_key mac = "hwaddr:" <> mac

pub instance_key-injective : (a b : String) → instance_key a ≡ instance_key b → a ≡ b
unfolding instance_key
instance_key-injective a b e = append_cancel_left "instance:" a b e

pub hwaddr_key-injective : (a b : String) → hwaddr_key a ≡ hwaddr_key b → a ≡ b
unfolding hwaddr_key
hwaddr_key-injective a b e = append_cancel_left "hwaddr:" a b e

pub instance_key-ne-hwaddr_key : (a b : String) → instance_key a ≢ hwaddr_key b
unfolding instance_key hwaddr_key
instance_key-ne-hwaddr_key a b e =
    let first : ◌≡◌ {A = Char} "i" "h" =
      head-eq_of_cons-eq (sym (cons-append "i" "nstance:" a) ∙ e ∙ cons-append "h" "waddr:" b) in
    let number : code "i" ≡ code "h" = ap code first in omega arith

-- Comparing two keys is comparing what they end in.
pub instance_key-eq : (a b : String) → (instance_key a == instance_key b) ≡ (a == b)
instance_key-eq a b =
    ground (arith, eq_iff (instance_key a) (instance_key b), eq_iff a b, instance_key-injective a b)

pub hwaddr_key-eq : (a b : String) → (hwaddr_key a == hwaddr_key b) ≡ (a == b)
hwaddr_key-eq a b =
    ground (arith, eq_iff (hwaddr_key a) (hwaddr_key b), eq_iff a b, hwaddr_key-injective a b)

pub instance_key-hwaddr_key : (a b : String) → (instance_key a == hwaddr_key b) ≡ false
instance_key-hwaddr_key a b =
    ground (arith, eq_iff (instance_key a) (hwaddr_key b), instance_key-ne-hwaddr_key a b)

pub hwaddr_key-instance_key : (a b : String) → (hwaddr_key b == instance_key a) ≡ false
hwaddr_key-instance_key a b =
    ground (arith, eq_iff (hwaddr_key b) (instance_key a), instance_key-ne-hwaddr_key a b)
