-- ===== src/Plugin/Hooked.antt =====
-- plugin/hooks.go: which hooks run, and in which order.
use mathlib.Core.List.{append-nil}
use beacon_auth.Prelude.{
  ℕ, suc, String, ◌≡◌, refl, ◌∙◌, Bool, true, false, some, List, [], ◌∷◌, ◌++◌, arith, select,
  select-append, ◌==◌, eq_iff, if◌then◌else◌, Bool-cases, inl, inr,
}
use beacon_auth.Prelude.Dict.{Dict, get-put}
use beacon_auth.Core.Types.{Done, Result-cases, ok, err}
use beacon_auth.Plugin.{
  Hook, HookConfig, HookRegistry, register, add_hooks, hooks_of, execute, execute_plugin,
  after_plugin,
}

abbrev pub is_ok : Done → Bool
is_ok (ok u) = true
is_ok (err x) = false

module _ {S : Type 0} where
  abbrev pub then_run : Bool × S → (S → Bool × S) → Bool × S
  then_run (true, s) f = f s
  then_run (false, s) f = (false, s)

  abbrev pub outcome : Done × S → Bool × S
  outcome (r, s) = (is_ok r, s)

  then_run_same :
      (r : Bool × S) (f g : S → Bool × S) → ((s : S) → f s ≡ g s) → then_run r f ≡ then_run r g
  then_run_same (true, s) f g h = h s
  then_run_same (false, s) f g h = refl

  outcome-after_plugin :
      (r : Done × S) (f : S → Done × S)
      → outcome (after_plugin r f) ≡ then_run (outcome r) (λ s. outcome (f s))
  outcome-after_plugin (ok u, s) f = refl
  outcome-after_plugin (err x, s) f = refl

module _ {S D : Type 0} where
  -- All hooks of the entries, in order.
  pub all_hooks : Dict (List (Hook S D)) → List (Hook S D)
  all_hooks [] = []
  all_hooks ((id, hs) ∷ es) = hs ++ all_hooks es

  -- Handlers one after the other, up to the first that fails: whether all succeeded, and the state.
  pub run_all : List (Hook S D) → D → S → Bool × S
  run_all [] d s = (true, s)
  run_all (h ∷ hs) d s = elim (h.handler d s).0 [
    | ok u ↦ run_all hs d (h.handler d s).1
    | err x ↦ (false, (h.handler d s).1)
  ]

  run_all-append :
      (hs ks : List (Hook S D)) (d : D) (s : S)
      → run_all (hs ++ ks) d s ≡ then_run (run_all hs d s) (run_all ks d)
  unfolding run_all
  run_all-append [] ks d s = refl
  run_all-append (h ∷ hs) ks d s = elim (Result-cases (h.handler d s).0) [
    | inl (u, e) ↦ rw e (run_all-append hs ks d (h.handler d s).1)
    | inr (x, e) ↦ rw e
  ]

  execute_plugin-run_all :
      (kind id : String) (i : ℕ) (hs : List (Hook S D)) (path method : String) (d : D) (s : S)
      → outcome (execute_plugin kind id i hs path method d s)
        ≡ run_all (select (λ h. h.matcher path method) hs) d s
  unfolding execute_plugin run_all
  execute_plugin-run_all kind id i [] path method d s = refl
  execute_plugin-run_all kind id i (h ∷ hs) path method d s =
      elim (Bool-cases (h.matcher path method)) [
        | inr n ↦ rw n (execute_plugin-run_all kind id (suc i) hs path method d s)
        | inl y ↦ rw y (elim (Result-cases (h.handler d s).0) [
          | inl (u, e) ↦
              rw e (execute_plugin-run_all kind id (suc i) hs path method d (h.handler d s).1)
          | inr (x, e) ↦ rw e
        ])
      ]

  -- In whichever order the plugins are walked, the hooks that match the path and the method run one
  -- after the other, each plugin's in the order in which it registered them, up to the first that
  -- fails; the others do not run; and the result is an error exactly if one has failed.
  pub execute-run_all :
      (kind : String) (es : Dict (List (Hook S D))) (path method : String) (d : D) (s : S)
      → outcome (execute kind es path method d s)
        ≡ run_all (select (λ h. h.matcher path method) (all_hooks es)) d s
  unfolding execute run_all all_hooks
  execute-run_all kind [] path method d s = refl
  execute-run_all kind ((id, hs) ∷ es) path method d s =
      outcome-after_plugin (execute_plugin kind id 0 hs path method d s)
        (execute kind es path method d)
      ∙ rw
          (
            execute_plugin-run_all kind id 0 hs path method d s,
            select-append (λ (h : Hook S D). h.matcher path method) hs (all_hooks es),
            run_all-append,
          )
          (then_run_same (run_all (select (λ (h : Hook S D). h.matcher path method) hs) d s) _ _
            (λ v. execute-run_all kind es path method d v))

  add_hooks_lem :
      (m : Dict (List (Hook S D))) (id k : String) (hs : List (Hook S D))
      → hooks_of (add_hooks m id hs) k ≡ (if id == k then hooks_of m k ++ hs else hooks_of m k)
  add_hooks_lem m id k [] = elim (Bool-cases (id == k)) [
    | inl y ↦ rw (y, append-nil)
    | inr n ↦ rw n
  ]
  add_hooks_lem m id k (h ∷ hs) =
      ground (arith, get-put m id k (hooks_of m id ++ h ∷ hs), eq_iff id k)

  -- Register adds the hooks of a plugin behind those that it has, and leaves the hooks of every other
  -- plugin as they are.
  pub register_lem :
      (id k : String) (c : HookConfig S D) (r : HookRegistry S D)
      → (hooks_of (register id (some c) r).before_hooks k
          ≡ (if id == k then hooks_of r.before_hooks k ++ c.before else hooks_of r.before_hooks k))
        × (hooks_of (register id (some c) r).after_hooks k
            ≡ (if id == k then hooks_of r.after_hooks k ++ c.after else hooks_of r.after_hooks k))
  unfolding register
  register_lem id k c r =
      (add_hooks_lem r.before_hooks id k c.before, add_hooks_lem r.after_hooks id k c.after)
