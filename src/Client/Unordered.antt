-- ===== src/Client/Unordered.antt =====
-- The client of rust/arti-ffi/src/client.rs up to the order of its service table: the iteration
-- order of a HashMap is unspecified, and so is the order in which `shutdown` stops the services.

pub mod Rules
pub mod Alike
pub mod Views
use go_arti.Prelude.{
  ℕ, ◌+◌, ◌-◌, ◌≡◌, refl, sym, ap, ◌∙◌, some, List, [], ◌∷◌, ◌++◌, append_assoc, arith, Text,
  text_eq_refl, text_eq_iff, total,
}
use go_arti.Prelude.Keys.{text_key, lookup, remove, lookup-remove}
use go_arti.Onion.{Service}
use go_arti.Onion.Launch
use go_arti.Client.{Call, Client, service}
use go_arti.Client.Workers.{values}
use go_arti.Client.Workers.Totals.{of_option, IsTable, total-remove, remove-IsTable}

-- The calls that are not about one onion service, in their order.
abbrev other : Call → List Call
other (service e) = []
other call = call ∷ []

unfoldable pub others : List Call → List Call
others [] = []
others (call ∷ calls) = other call ++ others calls

pub others-append : (xs ys : List Call) → others (xs ++ ys) ≡ others xs ++ others ys
unfolding others
others-append [] ys = refl
others-append (x ∷ xs) ys =
    ap (λ l. other x ++ l) (others-append xs ys)
    ∙ sym (append_assoc (other x) (others xs) (others ys))

-- The same calls, those about services perhaps in another order.
pub record SameCalls (xs ys : List Call) : Type 0 where
  pub in_order : others xs ≡ others ys
  pub as_often : (f : Call → ℕ) → total f xs ≡ total f ys

module _ {P : Type 0} where
  -- Two clients that differ in the order of their tables and of their calls about services.
  pub record Same (c c' : Client P) : Type 0 where
    pub rest : c' ≡ record c { services = c'.services; calls = c'.calls }
    pub table : IsTable c.services
    pub table' : IsTable c'.services
    pub found : (id : Text) → lookup id c.services ≡ lookup id c'.services
    pub made : SameCalls c.calls c'.calls

  -- Tables with the same entries hold the same services, as often.
  pub total-found :
      (f : Service P → ℕ) (m m' : List (Text × Service P))
      → IsTable m
      → IsTable m'
      → ((id : Text) → lookup id m ≡ lookup id m')
      → total f (values m) ≡ total f (values m')
  unfolding total lookup
  total-found f [] [] h h' e = refl
  total-found f [] ((j, w) ∷ m') h h' e = absurd (ground (arith, e j, text_eq_refl j))
  total-found f ((j, w) ∷ m) m' h h' e =
      let found : lookup j m' ≡ some w = sym (e j) ∙ ground (arith, text_eq_refl j) in
      let less =
        total-found f m (remove j m') h.1 (remove-IsTable j m' h')
          (λ id. ground (arith, lookup-remove j id m', e id, text_eq_iff j id, h.0)) in
      omega (arith, less, total-remove f j m' h', ap (of_option f) found)
