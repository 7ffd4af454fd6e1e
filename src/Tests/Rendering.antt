-- ===== src/Tests/Rendering.antt =====
-- Renderings of a list that contains itself, whose other element refuses its `repr`, and of two dicts
-- that differ in a password.
use mathlib.Core.Path.{subst}
use pidprobe.Base.{
  ℕ, zero, suc, Bool-cases, ◌≢◌, ◌<>◌, arith, ◌≡◌, refl, inl, inr, String, Bool, true, false, List,
  [], ◌∷◌, ◌==◌, if◌then◌else◌,
}
use pidprobe.Base.Text.{codes}
use pidprobe.SafeRepr.Names.{Unicode, is_secret_name, skeleton}
use pidprobe.SafeRepr.Process.{
  Exc, done, raised, item, stop, Ref, a_dict, a_list, a_str, other, Process,
}
use pidprobe.SafeRepr.Render.{is_secret_key, key_is_secret, safe_repr}
use pidprobe.SafeRepr.Bounds.{over}
use pidprobe.SafeRepr.Returns.{CatchablePull, IsCatchable}
use pidprobe.SafeRepr.Taken.{Gives}
use pidprobe.SafeRepr.Masking.{AgreesOutside, safe_repr-agrees}

abbrev ascii_only : Unicode
ascii_only = record { lower_other = λ n. n ∷ []; is_alnum_other = λ n. false }

abbrev refusal : Exc
refusal = record { type_name = "ValueError"; is_exception = true }

abbrev knot : Process
knot = record {
  object = λ r. if r == 0 then done (a_list (over (0 ∷ 1 ∷ []))) else done other;
  type_name = λ r. done "Node";
  repr = λ r. raised refusal;
}

over-items : (xs : List Ref) (i : ℕ) → CatchablePull (λ e. ⊥) (over xs i)
over-items [] i = tt
over-items (x ∷ xs) zero = tt
over-items (x ∷ xs) (suc i) = over-items xs i

knot-IsCatchable : IsCatchable knot
knot-IsCatchable = record {
  objects =
      λ r. elim (Bool-cases (r == 0)) [ inl e ↦ rw e (over-items (0 ∷ 1 ∷ [])) | inr e ↦ rw e tt ];
  type_names = λ r. tt;
  reprs = λ r. λ h. ground (arith, h);
}

abbrev exit_now : Exc
exit_now = record { type_name = "SystemExit"; is_exception = false }

abbrev quitter : Process
quitter = record {
  object = λ r. done other;
  type_name = λ r. done "Quitter";
  repr = λ r. raised exit_now;
}

-- 0 is `{'password': 2}`, with the key at 1. Its `repr` shows the password.
abbrev login : String → Process
login password = record {
  object = λ r.
      if r == 0
      then done (a_dict (over ((1, 2) ∷ [])))
      else if r == 1
      then done (a_str "password")
      else done other;
  type_name = λ r. done "str";
  repr = λ r.
      if r == 0
      then done ("{'password': " <> (password <> "}"))
      else if r == 2
      then done password
      else done "'password'";
}

abbrev is_password : Ref → Bool
is_password r = r == 2

over-one : {A : Type 0} (P : A → Type 0) (x : A) → P x → Gives P (over (x ∷ []))
over-one P x h zero y e = subst P (cc) h
over-one P x h (suc i) y e = cc

item-stop : (entry : Ref × Ref) → item entry ≢ stop
item-stop entry e = cc

login-AgreesOutside : AgreesOutside ascii_only (login "hunter2") (login "swordfish") is_password
unfolding key_is_secret is_secret_key is_secret_name
login-AgreesOutside = record {
  objects = λ r h. refl;
  type_names = λ r h. refl;
  reprs = λ r h b. elim (Bool-cases (r == 0)) [
    | inl e ↦ absurd (item-stop _ (rw e at b))
    | inr e ↦ rw (e, h) refl
  ];
  leads = λ r h. elim (Bool-cases (r == 0)) [
    | inl e ↦ rw e (over-one _ (1, 2) (refl, inr refl))
    | inr e ↦ elim (Bool-cases (r == 1)) [ inl f ↦ rw (e, f) tt | inr f ↦ rw (e, f) tt ]
  ];
}

safe_repr-agrees_example :
    safe_repr (login "hunter2") ascii_only 0 true ≡ safe_repr (login "swordfish") ascii_only 0 true
safe_repr-agrees_example =
    safe_repr-agrees ascii_only (login "hunter2") (login "swordfish") is_password
      login-AgreesOutside 0 refl

token_is_secret : is_secret_name ascii_only "token" ≡ true
unfolding is_secret_name
token_is_secret = refl

same_skeleton : skeleton (codes "API_Key") ≡ skeleton (codes "apikey")
unfolding skeleton
same_skeleton = refl

abbrev three : List Ref
three = 7 ∷ 8 ∷ 9 ∷ []
