-- ===== src/SafeRepr/Named.antt =====
-- src/pidprobe/_saferepr.py: `safe_repr_named` masks by the name, and bounds what it shows.
use pidprobe.Base.{◌≡◌, refl, ◌≤◌, ◌+◌, count, String, Bool, true, Bool-cases, inl, inr, arith}
use pidprobe.SafeRepr.Names.{Unicode, is_secret_name}
use pidprobe.SafeRepr.Process.{done, Ref, Process}
use pidprobe.SafeRepr.Render.{safe_repr_named, mask_placeholder, max_total_chars, truncation_marker}
use pidprobe.SafeRepr.Returns.{IsCatchable}
use pidprobe.SafeRepr.Totality.{safe_repr-done}

-- What is shown under a name: no more than the bound, and the placeholder where masking asks for it.
abbrev pub IsShown : Unicode → String → Bool → String → Type 0
IsShown u name is_masked text =
    (count text ≤ max_total_chars + count truncation_marker)
    × (is_masked ≡ true → is_secret_name u name ≡ true → text ≡ mask_placeholder)

pub safe_repr_named_total :
    (p : Process) (u : Unicode) (name : String) (value : Ref) (is_masked : Bool)
    → IsCatchable p
    → (text : String) × (safe_repr_named p u name value is_masked ≡ done text)
      × IsShown u name is_masked text
unfolding safe_repr_named
safe_repr_named_total p u name value is_masked c =
    let (text, made, bound) = safe_repr-done p u c value is_masked in
    elim (Bool-cases is_masked) [
      | inl m ↦ elim (Bool-cases (is_secret_name u name)) [
        | inl n ↦ (mask_placeholder, rw (m, n) refl, (ground arith, λ h k. refl))
        | inr n ↦ (text, rw (m, n) (rw m at made), (bound, λ h k. ground (arith, n, k)))
      ]
      | inr m ↦ (text, rw m (rw m at made), (bound, λ h k. ground (arith, m, h)))
    ]
