-- ===== src/Client/Status.antt =====
-- `summarize` and `bootstrap_status` of rust/arti-ffi/src/client.rs. The status is the crate
-- arti-client's: `as_frac` is an f32, here a fraction (0 / 0 stands for a NaN) on which the
-- product with 100 and its rounding are exact.
use go_arti.Prelude.{
  ℕ, ◌+◌, ◌*◌, ◌/◌, ◌≤◌, min, ◌≡◌, refl, sym, ◌∙◌, ◌↔◌, inl, inr, Bool, true, false, Option, none,
  some, arith, ltb, if◌then◌else◌, Bool-cases, Text, codes, text_eq, text_eq_iff,
}

pub data BlockageKind : Type 0 where
  disabled other : BlockageKind

pub record Blockage : Type 0 where
  pub kind : BlockageKind
  pub text : Text

pub record TorStatus : Type 0 where
  pub frac_num : ℕ
  pub frac_den : ℕ
  pub ready_for_traffic : Bool
  pub blocked : Option Blockage
  pub text : Text

pub record BootstrapStatus : Type 0 where
  pub progress : ℕ
  pub tag : Text
  pub summary : Text
  pub liveness : Text

-- `(as_frac * 100.0).round().clamp(0.0, 100.0) as u8`; halves are rounded up.
unfoldable pub percent : ℕ → ℕ → ℕ
percent num den = min 100 ((200 * num + den) / (2 * den))

blocked_as : Blockage → Text × Text
blocked_as b = elim b.kind [
  | disabled ↦ (codes "starting", codes "Waiting to bootstrap")
  | other ↦ (codes "problem", b.text)
]

waiting_as : ℕ → Option Blockage → Text → Text × Text
unfolding blocked_as
waiting_as progress (some b) text = blocked_as b
waiting_as progress none text =
    if ltb 0 progress then (codes "loading_status", text) else (codes "starting", codes "Starting")

unfoldable pub summarize : TorStatus → BootstrapStatus
unfolding waiting_as percent
summarize status =
    let ready = status.ready_for_traffic in
    let p = percent status.frac_num status.frac_den in
    let progress : ℕ = if ready then 100 else min p 99 in
    let words : Text × Text =
      if ready
      then (codes "done", codes "Done")
      else waiting_as progress status.blocked status.text in
    record {
      progress = progress;
      tag = words.0;
      summary = words.1;
      liveness = if ready then codes "up" else codes "down";
    }

waiting_not_done :
    (p : ℕ) (b : Option Blockage) (t : Text) → text_eq (waiting_as p b t).0 (codes "done") ≡ false
unfolding waiting_as text_eq
waiting_not_done p none t = ground arith
waiting_not_done p (some b) t = ground arith

-- Progress never passes 100; progress 100, the tag "done" and the liveness "up" each stand for
-- the client being ready for traffic, so no two of them can disagree.
pub summarize_agrees :
    (status : TorStatus)
    → let s = summarize status in
      (s.progress ≤ 100)
      × ((s.progress ≡ 100) ↔ (status.ready_for_traffic ≡ true))
      × ((s.tag ≡ codes "done") ↔ (status.ready_for_traffic ≡ true))
      × ((s.liveness ≡ codes "up") ↔ (status.ready_for_traffic ≡ true))
unfolding summarize text_eq
summarize_agrees status = elim (Bool-cases status.ready_for_traffic) [
  | inl e ↦
      rw e (omega arith, (λ _. refl, λ _. refl), (λ _. refl, λ _. refl), (λ _. refl, λ _. refl))
  | inr e ↦
      let p : ℕ = min (percent status.frac_num status.frac_den) 99 in
      let kept = waiting_not_done p status.blocked status.text in
      rw e (
        omega arith,
        (λ h. absurd (omega arith), λ h. cc),
        (
          λ h.
              sym kept
              ∙ (text_eq_iff (waiting_as p status.blocked status.text).0 (codes "done")).1 h,
          λ h. cc,
        ),
        (λ h. (text_eq_iff (codes "down") (codes "up")).1 h, λ h. cc),
      )
]
