-- ===== src/Client/Network.antt =====
-- The network switch of rust/arti-ffi/src/client.rs: what it keeps in step, and what two threads
-- that use it at once can do.
pub mod Threads
use go_arti.Prelude.{
  ℕ, zero, suc, ◌+◌, ◌-◌, ◌*◌, ◌/◌, ◌%◌, ◌^◌, ◌≤◌, ◌<◌, min, String, ◌≡◌, refl, sym, ap, ◌∙◌, ◌≢◌,
  ◌↔◌, ◌⊎◌, inl, inr, Bool, true, false, not, ◌&&◌, ◌||◌, Option, none, some, List, [], ◌∷◌, ◌++◌,
  map, append-nil, append_assoc, arith, ◌>>=◌, ◌>>◌, ltb, leb, ◌==◌, if◌then◌else◌, within, ltb→lt,
  lt→ltb, leb→le, le→leb, ==_iff, ==_refl, tests, Bool-cases, Option-cases, Result, ok, err,
  or_fail, Result-cases, through, length, take, drop, get_or, length-append, split_at?,
  split_at?-append, split_at?-short, All, Bytes, Text, codes, text_eq, text_eq_sound, text_eq_refl,
  text_eq_iff, modify, get_elem?, replicate, get_elem?-modify, get_elem?-modify-none, each-modify,
  one_at, times, get_elem?-replicate, get_elem?-lt, modify_leaves_fewer, turns_leave_fewer,
  turn_leaves_fewer, total_none, total, total-append, total-modify, le-total,
}
use go_arti.Client.{
  DormantMode, normal, soft, Call, spawn_bootstrap, set_dormant, Client, swap_enabled,
  apply_enabled, set_network_enabled, network_enabled,
}

abbrev newer : Call → Option DormantMode → Option DormantMode
newer (set_dormant m) before = some m
newer _ before = before

-- The mode that was set last; `none` if none was.
unfoldable pub dormant_mode : List Call → Option DormantMode → Option DormantMode
dormant_mode [] before = before
dormant_mode (call ∷ calls) before = dormant_mode calls (newer call before)

pub dormant_mode-append :
    (xs ys : List Call) (before : Option DormantMode)
    → dormant_mode (xs ++ ys) before ≡ dormant_mode ys (dormant_mode xs before)
unfolding dormant_mode
dormant_mode-append [] ys before = refl
dormant_mode-append (x ∷ xs) ys before = dormant_mode-append xs ys (newer x before)

-- An enabled network runs in normal mode, and one that is not enabled is dormant or untouched.
abbrev pub InStep : Bool → Option DormantMode → Type 0
InStep true m = m ≡ some normal
InStep false m = m ≢ some normal

module _ {P : Type 0} where
  -- The flag agrees with the mode that arti-client was last put into.
  pub record IsInStep (c : Client P) : Type 0 where
    pub in_step : InStep c.net_enabled (dormant_mode c.calls none)

  apply_enabled-IsInStep :
      (enabled before : Bool) (c : Client P)
      → InStep before (dormant_mode c.calls none)
      → IsInStep (apply_enabled enabled before (record c { net_enabled = enabled }))
  unfolding apply_enabled dormant_mode
  apply_enabled-IsInStep true true c h = record { in_step = h }
  apply_enabled-IsInStep true false c h = record { in_step = rw dormant_mode-append }
  apply_enabled-IsInStep false true c h = record { in_step = rw dormant_mode-append (λ e. cc) }
  apply_enabled-IsInStep false false c h = record { in_step = h }

  -- A thread that switches the network alone keeps the flag and the mode in step.
  pub set_network_enabled-IsInStep :
      (enabled : Bool) (c : Client P) → IsInStep c → IsInStep (set_network_enabled enabled c)
  unfolding set_network_enabled
  set_network_enabled-IsInStep enabled c h =
      apply_enabled-IsInStep enabled c.net_enabled c h.in_step

  pub apply_enabled-net :
      (enabled before : Bool) (c : Client P)
      → (apply_enabled enabled before c).net_enabled ≡ c.net_enabled
  unfolding apply_enabled
  apply_enabled-net enabled before c = ground arith

  apply_enabled_same : (b : Bool) (c : Client P) → apply_enabled b b c ≡ c
  unfolding apply_enabled
  apply_enabled_same true c = refl
  apply_enabled_same false c = refl

  pub set_network_enabled_idle :
      (enabled : Bool) (c : Client P) → c.net_enabled ≡ enabled → set_network_enabled enabled c ≡ c
  unfolding set_network_enabled
  set_network_enabled_idle enabled c e = rw (← e) (apply_enabled_same c.net_enabled c)

  -- After the call the network is enabled as asked, and asking again changes nothing at all.
  set_network_enabled_twice :
      (enabled : Bool) (c : Client P)
      → (network_enabled (set_network_enabled enabled c) ≡ enabled)
        × (set_network_enabled enabled (set_network_enabled enabled c)
            ≡ set_network_enabled enabled c)
  unfolding network_enabled
  set_network_enabled_twice enabled c =
      let set : (set_network_enabled enabled c).net_enabled ≡ enabled =
        unfold set_network_enabled in apply_enabled-net enabled c.net_enabled _ in
      (set, set_network_enabled_idle enabled (set_network_enabled enabled c) set)

  -- Two threads, one that enables a disabled network and one that disables it again: where the
  -- first has swapped the flag, the second runs whole, and then the first goes on, the network is
  -- marked as disabled while arti-client is in normal mode; the calls that the two made are to go
  -- dormant, to leave that again, and to start a bootstrap.
  pub set_network_enabled_race :
      (c : Client P)
      → c.net_enabled ≡ false
      → let (before, c1) = swap_enabled true c in
        let c3 = apply_enabled true before (set_network_enabled false c1) in
        (network_enabled c3 ≡ false)
        × (dormant_mode c3.calls none ≡ some normal)
        × (c3.calls ≡ c.calls ++ set_dormant soft ∷ set_dormant normal ∷ spawn_bootstrap ∷ [])
  unfolding set_network_enabled network_enabled swap_enabled apply_enabled dormant_mode
  set_network_enabled_race c h = rw h (
    refl,
    dormant_mode-append (c.calls ++ set_dormant soft ∷ [])
        (set_dormant normal ∷ spawn_bootstrap ∷ []) none,
    append_assoc c.calls (set_dormant soft ∷ []) (set_dormant normal ∷ spawn_bootstrap ∷ []),
  )
