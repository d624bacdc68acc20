-- ===== src/Security/Credentials.antt =====
-- The two authorizations of a request, and the identifiers.
use Prim.Native.Char.{Char}
use Prim.Native.String.{String, ◌++◌}
use Prim.Native.String.append.{nil as append_nil, cons as append_cons}
use autonomous_executive_ema.Base.{
  ℕ, ◌+◌, ◌≡◌, refl, ap, ◌∙◌, Bool, true, false, ◌&&◌, Option, none, some, [], leb, ltb, lookup,
  truthy, str_eq, if◌then◌else◌, arith, Bool-cases, inl, inr, truthy-cons,
}
use autonomous_executive_ema.Security.{
  Casing, text_of, presents, extract_bearer_token, is_mutating, request_is_authorized, tenant_of,
  resolve_auth, is_safe, safe_run, is_valid_identifier, at_end,
}
use mathlib.Core.Path.{subst}

pick :
    (b : Bool) (x y : Bool × Option String) → x.0 ≡ true → y.0 ≡ false → (if b then x else y).0 ≡ b
pick true x y h k = h
pick false x y h k = k

tenant-presents :
    (configured : Option String) (presented : Option String)
    → truthy (text_of configured) ≡ true
    → (tenant_of configured [] presented).0 ≡ presents presented (text_of configured)
unfolding tenant_of lookup
tenant-presents configured none h = refl
tenant-presents configured (some t) h = rw h (pick (str_eq t (text_of configured)) _ _ refl refl)

-- Without tenants and with reads open, `resolve_auth` lets through exactly the requests that
-- `request_is_authorized` does.
pub resolve_auth-eq-request_is_authorized :
    (k : Casing) (method : String) (configured authorization key : Option String)
    → (resolve_auth k method configured [] authorization key false).0
      ≡ request_is_authorized k method configured authorization key
unfolding resolve_auth request_is_authorized
resolve_auth-eq-request_is_authorized k method configured authorization key =
    elim (Bool-cases (truthy (text_of configured))) [
      | inr b ↦ rw b refl
      | inl b ↦ elim (Bool-cases (is_mutating k method)) [
        | inr m ↦ rw (b, m) refl
        | inl m ↦
            rw (b, m) (tenant-presents configured (extract_bearer_token k authorization key) b)
      ]
    ]

-- All characters of a text are of the class of identifiers.
unfoldable pub all_safe : String → Bool
all_safe String.[] = true
all_safe (String.◌∷◌ c s) = is_safe c && all_safe s

abbrev newline : Char
newline = "\n"

both : (b c : Bool) → (b && c) ≡ true → (b ≡ true) × (c ≡ true)
both b c h = ground (arith, h)

truthy-append : (s : String) → truthy (s ++ "\n") ≡ true
truthy-append String.[] = ap truthy (append_nil "\n")
truthy-append (String.◌∷◌ c s) = ap truthy (append_cons c s "\n") ∙ truthy-cons c (s ++ "\n")

safe_run-newline :
    (n : ℕ) (s : String) → all_safe s ≡ true → safe_run n s ≡ true → safe_run n (s ++ "\n") ≡ true
unfolding safe_run all_safe is_safe
safe_run-newline n String.[] a h = ap (safe_run n) (append_nil "\n") ∙ ground (arith, h)
safe_run-newline n (String.◌∷◌ c s) a h =
    let (here, rest) = both (is_safe c) (all_safe s) a in
    let run =
      subst (λ b. (if b then ltb n 128 && safe_run (n + 1) s else leb 1 n && at_end c s) ≡ true)
        here h in
    let (room, more) = both (ltb n 128) (safe_run (n + 1) s) run in
    ap (safe_run n) (append_cons c s "\n") ∙ rw (here, room) (safe_run-newline (n + 1) s rest more)

-- An identifier may end in a newline, which is not of its class: the pattern's `$` matches before one.
pub identifier_newline :
    (value : String)
    → all_safe value ≡ true
    → is_valid_identifier value ≡ true
    → is_valid_identifier (value ++ "\n") ≡ true
unfolding is_valid_identifier
identifier_newline value a h =
    let (some_text, run) = both (truthy value) (safe_run 0 value) h in
    rw (truthy-append value) (safe_run-newline 0 value a run)
