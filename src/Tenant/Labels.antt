-- ===== src/Tenant/Labels.antt =====
-- integrations/http/tenant.go: hosts that are made of a label, a base domain and a port.
use text.Mathlib.TextLemmas.{append_cancel_right, cons≢nil, append-nil}
use Prim.Native.Char.{Char}
use Prim.Native.String.append
use beacon_auth.Prelude.{
  String, str_append, ◌≡◌, refl, sym, ap, ◌∙◌, true, false, Option, none, some, ◌∷◌, ◌==◌, eq_iff,
  eq_refl, arith,
}
use beacon_auth.Core.Split.{split_at, lacks, split-append, split-lacks}
use beacon_auth.Tenant.{without_port, before_suffix, first_part}

-- A text with a port, or without one.
abbrev pub with_port : String → Option String → String
with_port s none = s
with_port s (some port) = str_append s (str_append ":" port)

-- A label with further labels behind it, or without them.
abbrev pub labels : String → Option String → String
labels u none = u
labels u (some more) = str_append u (str_append "." more)

longer : (c : Char) (s t : String) → (String.◌∷◌ c (str_append s t) == t) ≡ false
longer c s t =
    let other : String.◌∷◌ c (str_append s t) ≡ t → false ≡ true = λ e. absurd (
      cons≢nil
        (append_cancel_right (String.◌∷◌ c s) "" t (append.cons c s t ∙ e ∙ sym (append.nil t)))) in
    ground (arith, eq_iff (String.◌∷◌ c (str_append s t)) t, other)

before_suffix_self : (t : String) → before_suffix t t ≡ some ""
unfolding before_suffix
before_suffix_self String.[] = refl
before_suffix_self (String.◌∷◌ c s) = rw (eq_refl (String.◌∷◌ c s)) refl

pub before_suffix-append : (s t : String) → before_suffix (str_append s t) t ≡ some s
unfolding before_suffix
before_suffix-append String.[] t = rw (append.nil t) (before_suffix_self t)
before_suffix-append (String.◌∷◌ c s) t =
    rw (append.cons c s t, longer c s t, before_suffix-append s t) refl

abbrev colon : Char
colon = ":"

abbrev dot : Char
dot = "."

char_append : (c : Char) (t : String) → str_append (String.◌∷◌ c "") t ≡ String.◌∷◌ c t
char_append c t = append.cons c "" t ∙ ap (String.◌∷◌ c) (append.nil t)

without_port-append :
    (s t : String) → lacks b':' s ≡ true → without_port (str_append s (str_append ":" t)) ≡ s
unfolding without_port
without_port-append String.[] t h =
    ap without_port (append.nil (str_append ":" t) ∙ char_append colon t)
without_port-append (String.◌∷◌ c s) t h =
    rw (append.cons c s (str_append ":" t)) (ground (arith, without_port-append s t))

pub without_port-with_port :
    (s : String) (port : Option String) → lacks b':' s ≡ true → without_port (with_port s port) ≡ s
unfolding without_port
without_port-with_port s (some port) h = without_port-append s port h
without_port-with_port String.[] none h = refl
without_port-with_port (String.◌∷◌ c s) none h = ground (arith, without_port-with_port s none)

split-dot : (m : String) → split_at b'.' (str_append "." m) ≡ "" ∷ split_at b'.' m
unfolding split_at
split-dot m = ap (split_at b'.') (char_append dot m)

pub first_part-labels :
    (whole u : String) (more : Option String)
    → lacks b'.' u ≡ true
    → first_part whole (split_at b'.' (labels u more)) ≡ u
first_part-labels whole u none h = rw (split-lacks b'.' u h) refl
first_part-labels whole u (some m) h =
    rw (split-append b'.' u (str_append "." m), split-lacks b'.' u h, split-dot m) (append-nil u)
