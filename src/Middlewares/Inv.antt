-- ===== src/Middlewares/Inv.antt =====
-- A relation between states that the services and the handler keep is kept by the guarded handler.
use noted_runner.Prelude.{inl, inr, Bool-cases, Option-cases, Option, none, some, Text, lookup}
use noted_runner.Middlewares.{
  Ctx, UserDto, Services, Handler, rt_cookie_key, at_cookie_key, or_empty, contains_byte, guarded,
  auth_middleware, access_mw, identified, permitted,
}

module _ {S : Type 0} (services : Services S) (R : S → S → Type 0) (same : (s : S) → R s s)
    (trans : (s t u : S) → R s t → R t u → R s u) where
  abbrev Keeps : Handler S → Type 0
  Keeps h = (c : Ctx) (s : S) → R s (h (c, s)).1

  permitted-R :
      (h : Handler S) (s : S) (c : Ctx) (r : Option Text × S)
      → Keeps h
      → R s r.1
      → R s (permitted services h c r).1
  unfolding permitted
  permitted-R h s c (none, t) k p = p
  permitted-R h s c (some access, t) k p = elim (Bool-cases (contains_byte b'x' access)) [
    | inl may ↦ rw may (trans s t _ p (k c t))
    | inr may_not ↦ rw may_not p
  ]

  access_mw-R :
      (h : Handler S)
      → ((user file : Text) (s : S) → R s (services.file_access user file s).1)
      → Keeps h
      → Keeps (access_mw services h)
  unfolding access_mw
  access_mw-R h asked k c s =
      permitted-R h s c (services.file_access (or_empty c.user_id) (or_empty c.kernel_id) s) k
        (asked (or_empty c.user_id) (or_empty c.kernel_id) s)

  identified-R :
      (h : Handler S) (s : S) (c : Ctx) (r : Option UserDto × S)
      → Keeps h
      → R s r.1
      → R s (identified services h c r).1
  unfolding identified
  identified-R h s c (none, t) k p = p
  identified-R h s c (some u, t) k p = trans s t _ p (k _ t)

  auth_middleware-R :
      (h : Handler S)
      → ((at rt : Text) (s : S) → R s (services.auth_user_id at rt s).1)
      → Keeps h
      → Keeps (auth_middleware services h)
  unfolding auth_middleware
  auth_middleware-R h known k c s = elim (Option-cases (lookup rt_cookie_key c.cookies)) [
    | inl missing ↦ rw (auth_middleware, missing) (same s)
    | inr (rt, token) ↦
        let at = or_empty (lookup at_cookie_key c.cookies) in
        rw (auth_middleware, token)
          (identified-R h s c (services.auth_user_id at rt s) k (known at rt s))
  ]

  pub guarded-R :
      (h : Handler S)
      → ((at rt : Text) (s : S) → R s (services.auth_user_id at rt s).1)
      → ((user file : Text) (s : S) → R s (services.file_access user file s).1)
      → ((c : Ctx) (s : S) → R s (h (c, s)).1)
      → (c : Ctx) (s : S) → R s (guarded services h (c, s)).1
  unfolding guarded
  guarded-R h known asked k = auth_middleware-R (access_mw services h) known (access_mw-R h asked k)
