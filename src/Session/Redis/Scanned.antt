-- ===== src/Session/Redis/Scanned.antt =====
-- session/redis_store.go: the loop that collects the keys ends after the last page, with every key.
use mathlib.Core.List.{append-nil, append_assoc}
use beacon_auth.Prelude.{
  ℕ, zero, suc, String, str_append, ◌≡◌, ◌≤◌, sym, ap, ◌∙◌, some, List, [], ◌∷◌, ◌++◌, arith,
  length, nat_eq, false,
}
use beacon_auth.Core.Types.{ok}
use beacon_auth.Core.World.{World}
use beacon_auth.Session.Redis.{RedisStore, scan_loop}

-- A page of keys with the cursor that SCAN answers beside it.
abbrev pub Page : Type 0
Page = List String × ℕ

abbrev pub concat : List Page → List String
concat [] = []
concat (p ∷ ps) = p.0 ++ concat ps

-- The cursor 0 stands beside the last page and beside no other.
abbrev pub IsLast : ℕ → List Page → Type 0
IsLast next [] = next ≡ 0
IsLast next (p ∷ ps) = nat_eq next 0 ≡ false

-- From a cursor on, SCAN answers these pages, each one for the cursor that stands beside the page
-- before it. What the cursors are is up to the server, but for the 0.
unfoldable pub Pages : {R : Type 0} → RedisStore R → R → ℕ → List Page → Type 0
Pages r c cursor [] = Unit {0}
Pages r c cursor (p ∷ ps) =
    (r.client.scan cursor (str_append r.prefix "*") 100 c ≡ (ok p, c))
    × IsLast p.1 ps
    × Pages r c p.1 ps

module _ {S R : Type 0} (r : RedisStore R) where
  -- With as much fuel as there are pages, the loop ends with the keys of all pages in order, and leaves
  -- the state as it was: where a connection that does not fail answers SCAN with one page or more,
  -- with cursors of its own choice that lead from page to page, and 0 beside the last one only, and no
  -- command of another client comes between.
  pub scan_loop-concat :
      (fuel cursor : ℕ) (p : Page) (ps : List Page) (keys : List String) (w : World S R)
      → length (p ∷ ps) ≤ fuel
      → Pages r w.cache cursor (p ∷ ps)
      → scan_loop r fuel cursor keys w ≡ (some (ok (keys ++ concat (p ∷ ps))), w)
  unfolding scan_loop Pages
  scan_loop-concat zero cursor p ps keys w enough h = absurd (omega arith)
  scan_loop-concat (suc fuel) cursor p [] keys w enough h =
      let page = h.0 in
      let zero_next = h.1 in
      let last : scan_loop r (suc fuel) cursor keys w ≡ (some (ok (keys ++ p.0)), w) =
        ground arith in
      last ∙ ap (λ k. (some (ok (keys ++ k)), w)) (sym (append-nil p.0))
  scan_loop-concat (suc fuel) cursor p (q ∷ qs) keys w enough h =
      let page = h.0 in
      let more = h.1 in
      let step : scan_loop r (suc fuel) cursor keys w ≡ scan_loop r fuel p.1 (keys ++ p.0) w =
        ground arith in
      step
      ∙ scan_loop-concat fuel p.1 q qs (keys ++ p.0) w (omega (arith, enough)) h.2
      ∙ ap (λ k. (some (ok k), w)) (append_assoc keys p.0 (concat (q ∷ qs)))
