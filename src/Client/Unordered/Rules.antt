-- ===== src/Client/Unordered/Rules.antt =====
-- What keeps two clients of rust/arti-ffi/src/client.rs alike up to the order of their tables.
use mathlib.Core.List.{map}
use mathlib.Core.Path.{subst, ap₂}
use go_arti.Prelude.{
  ℕ, ◌≡◌, refl, sym, ap, ◌∙◌, true, none, some, List, [], ◌∷◌, ◌++◌, arith, if◌then◌else◌, Text,
  text_eq, total, total-append,
}
use go_arti.Prelude.Keys.{text_key, lookup, insert, remove, lookup-insert, lookup-remove}
use go_arti.Onion.{Service}
use go_arti.Onion.Launch.{Effect}
use go_arti.Onion.Launch
use go_arti.Client.{notify_all, shutdown, stop_all, Call, Client, service, called, stop_all}
use go_arti.Client.Workers.{values}
use go_arti.Client.Workers.Totals.{IsTable, insert-IsTable, remove-IsTable}
use go_arti.Client.Unordered.{others, others-append, SameCalls, Same, total-found}

pub SameCalls-refl : (xs : List Call) → SameCalls xs xs
SameCalls-refl xs = record { in_order = refl; as_often = λ f. refl }

pub SameCalls-append :
    (xs xs' ys ys' : List Call)
    → SameCalls xs xs'
    → SameCalls ys ys'
    → SameCalls (xs ++ ys) (xs' ++ ys')
SameCalls-append xs xs' ys ys' h k = record {
  in_order = others-append xs ys ∙ ap₂ ◌++◌ h.in_order k.in_order ∙ sym (others-append xs' ys');
  as_often =
      λ f. omega (arith, total-append f xs ys, total-append f xs' ys', h.as_often f, k.as_often f);
}

others-services : (effects : List Effect) → others (map service effects) ≡ []
unfolding others
others-services [] = refl
others-services (e ∷ effects) = others-services effects

module _ {P : Type 0} where
  others-stop_all : (m : List (Text × Service P)) → others (stop_all m) ≡ []
  unfolding others stop_all
  others-stop_all [] = refl
  others-stop_all ((id, svc) ∷ m) =
      others-append (map service (Launch.shutdown svc)) (stop_all m)
      ∙ ap₂ ◌++◌ (others-services (Launch.shutdown svc)) (others-stop_all m)

  total-stop_all :
      (f : Call → ℕ) (m : List (Text × Service P))
      → total f (stop_all m) ≡ total (λ svc. total f (map service (Launch.shutdown svc))) (values m)
  unfolding total stop_all
  total-stop_all f [] = refl
  total-stop_all f ((id, svc) ∷ m) =
      omega
        (arith, total-append f (map service (Launch.shutdown svc)) (stop_all m), total-stop_all f m)

  -- Tables with the same entries are stopped by the same calls.
  stop_all-SameCalls :
      (m m' : List (Text × Service P))
      → IsTable m
      → IsTable m'
      → ((id : Text) → lookup id m ≡ lookup id m')
      → SameCalls (stop_all m) (stop_all m')
  stop_all-SameCalls m m' h h' e = record {
    in_order = others-stop_all m ∙ sym (others-stop_all m');
    as_often = λ f. total-stop_all f m ∙ total-found _ m m' h h' e ∙ sym (total-stop_all f m');
  }

  pub Same-refl : (c : Client P) → IsTable c.services → Same c c
  Same-refl c h = record {
    rest = refl;
    table = h;
    table' = h;
    found = λ id. refl;
    made = SameCalls-refl c.calls;
  }

  -- It is enough to look at a client beside itself with another table and other calls.
  pub Same-elim :
      (Q : Client P → Client P → Type 0)
      → ((c : Client P) (m : List (Text × Service P)) (calls : List Call)
          → Same c (record c { services = m; calls = calls })
          → Q c (record c { services = m; calls = calls }))
      → (c c' : Client P) → Same c c'
      → Q c c'
  Same-elim Q q c c' h =
      subst (Q c) (sym h.rest) (q c c'.services c'.calls (subst (Same c) h.rest h))

  pub called-Same :
      (xs ys : List Call) (c c' : Client P)
      → SameCalls xs ys
      → Same c c'
      → Same (called c xs) (called c' ys)
  called-Same xs ys c c' k h = record {
    rest = ap (λ d. called d ys) h.rest;
    table = h.table;
    table' = h.table';
    found = h.found;
    made = SameCalls-append c.calls c'.calls xs ys h.made k;
  }

  -- A client beside itself, and then another one with its table and its calls beside itself.
  pub beside-Same :
      (c d : Client P) (m : List (Text × Service P)) (calls : List Call)
      → d.services ≡ c.services
      → d.calls ≡ c.calls
      → Same c (record c { services = m; calls = calls })
      → Same d (record d { services = m; calls = calls })
  beside-Same c d m calls e k h = record {
    rest = refl;
    table = subst IsTable (sym e) h.table;
    table' = h.table';
    found = λ id. ap (lookup id) e ∙ h.found id;
    made = subst (λ l. SameCalls l calls) (sym k) h.made;
  }

  pub shutdown-Same : (c c' : Client P) → Same c c' → Same (shutdown c) (shutdown c')
  unfolding shutdown
  shutdown-Same c c' h =
      let stops = stop_all-SameCalls c.services c'.services h.table h.table' h.found in
      let both = SameCalls-append _ _ _ _ stops (SameCalls-refl (notify_all ∷ [])) in
      record {
        rest = ap (shut c'.calls) h.rest;
        table = tt;
        table' = tt;
        found = λ id. refl;
        made = SameCalls-append c.calls c'.calls _ _ h.made both;
      }
    where
      shut : List Call → Client P → Client P
      shut calls d = record d {
        services = [];
        exit = true;
        calls = calls ++ (stop_all c'.services ++ notify_all ∷ []);
      }

  pub inserted-Same :
      (id : Text) (svc : Service P) (c c' : Client P)
      → Same c c'
      → Same
          (record c { services = insert id svc c.services })
          (record c' { services = insert id svc c'.services })
  inserted-Same id svc c c' h = record {
    rest = ap {A = Client P} (λ d. record d { services = insert id svc d.services }) h.rest;
    table = insert-IsTable id svc c.services h.table;
    table' = insert-IsTable id svc c'.services h.table';
    found = λ j.
        lookup-insert id j svc c.services
        ∙ ap (λ o. if text_eq id j then some svc else o) (h.found j)
        ∙ sym (lookup-insert id j svc c'.services);
    made = h.made;
  }

  pub removed-Same :
      (id : Text) (c c' : Client P)
      → Same c c'
      → Same
          (record c { services = remove id c.services })
          (record c' { services = remove id c'.services })
  removed-Same id c c' h = record {
    rest = ap {A = Client P} (λ d. record d { services = remove id d.services }) h.rest;
    table = remove-IsTable id c.services h.table;
    table' = remove-IsTable id c'.services h.table';
    found = λ j.
        lookup-remove id j c.services
        ∙ ap (λ o. if text_eq id j then none else o) (h.found j)
        ∙ sym (lookup-remove id j c'.services);
    made = h.made;
  }
