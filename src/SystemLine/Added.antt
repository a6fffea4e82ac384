-- ===== src/SystemLine/Added.antt =====
-- What a `$` command of system.c adds to the orders.
use mathlib.Core.List.{append-nil, append_assoc}
use g_carvin.Base.{◌≡◌, sym, ap, ◌∙◌, Bool, true, false, List, [], ◌∷◌, ◌++◌}
use g_carvin.SystemLine.{Order, st_go_idle, reset_cpu, throb_leds, parsed}

-- What only prints.
abbrev pub is_print : {V : Type 0} → Order V → Bool
is_print st_go_idle = false
is_print reset_cpu = false
is_print (throb_leds on) = false
is_print (parsed actions) = false
is_print _ = true

-- What does not reach the parser.
abbrev pub passes_parser : {V : Type 0} → Order V → Bool
passes_parser (parsed actions) = false
passes_parser _ = true

abbrev pub AllOrders : {V : Type 0} → (Order V → Bool) → List (Order V) → Type 0
AllOrders P [] = Unit
AllOrders P (o ∷ os) = (P o ≡ true) × AllOrders P os

-- Some orders are added, all of this kind.
pub record Adds {V : Type 0} (P : Order V → Bool) (before after : List (Order V)) : Type 0 where
  pub added : List (Order V)
  pub orders : after ≡ before ++ added
  pub kind : AllOrders P added

pub Adds-none : {V : Type 0} (P : Order V → Bool) (os : List (Order V)) → Adds P os os
Adds-none P os = record { added = []; orders = sym (append-nil os); kind = tt }

AllOrders-append :
    {V : Type 0} (P : Order V → Bool) (os : List (Order V)) (o : Order V)
    → AllOrders P os
    → P o ≡ true
    → AllOrders P (os ++ o ∷ [])
AllOrders-append P [] o h k = (k, tt)
AllOrders-append P (x ∷ xs) o (hx, hs) k = (hx, AllOrders-append P xs o hs k)

pub Adds-order :
    {V : Type 0} (P : Order V → Bool) (before after : List (Order V)) (o : Order V)
    → P o ≡ true
    → Adds P before after
    → Adds P before (after ++ o ∷ [])
Adds-order P before after o k a = record {
  added = a.added ++ o ∷ [];
  orders = ap (λ os. os ++ o ∷ []) a.orders ∙ append_assoc before a.added (o ∷ []);
  kind = AllOrders-append P a.added o a.kind k;
}
