-- ===== src/Middlewares/Access.antt =====
-- Who reaches a handler.
use noted_runner.Prelude.{
  ◌≡◌, ◌⊎◌, inl, inr, arith, true, some, Text, lookup, Option-cases, Bool-cases,
}
use noted_runner.Middlewares.{
  Ctx, UserDto, Services, Handler, rt_cookie_key, at_cookie_key, or_empty, refresh_cookies,
  unauthorized, contains_byte, guarded, auth_middleware, access_mw, identified, permitted,
  setup_access_cookies,
}

module _ {S : Type 0} (services : Services S) where
  -- A request that was let through: who the user is, what he may do, and in what state the handler
  -- finds the request.
  pub record Granted (h : Handler S) (x : Ctx × S) : Type 0 where
    pub refresh : Text
    pub user : UserDto
    pub access : Text
    -- the refresh token was passed
    pub token : lookup rt_cookie_key x.0.cookies ≡ some refresh
    -- the service for identities knows the user of the tokens
    pub known :
        (services.auth_user_id (or_empty (lookup at_cookie_key x.0.cookies)) refresh x.1).0
        ≡ some user
    -- the service for access grants that user a right on the kernel of the request
    pub asked :
        (services.file_access user.id
          (or_empty x.0.kernel_id)
          (services.auth_user_id (or_empty (lookup at_cookie_key x.0.cookies)) refresh x.1).1).0
        ≡ some access
    -- that contains the right to execute
    pub may_execute : contains_byte b'x' access ≡ true
    -- and the handler runs for that user
    pub handled :
        guarded services h x
        ≡ h (
          refresh_cookies user (record x.0 { user_id = some user.id }),
          (services.file_access user.id
              (or_empty x.0.kernel_id)
              (services.auth_user_id
                (or_empty (lookup at_cookie_key x.0.cookies))
                refresh
                x.1).1).1,
        )

  -- A request that was turned away: the status is 401, and no handler has a part in it.
  pub record Refused (h : Handler S) (x : Ctx × S) : Type 0 where
    pub status : (guarded services h x).0.status ≡ 401
    pub unhandled : (k : Handler S) → guarded services k x ≡ guarded services h x

  pub user_of-refresh : (u : UserDto) (c : Ctx) → (refresh_cookies u c).user_id ≡ c.user_id
  unfolding refresh_cookies setup_access_cookies
  user_of-refresh u c = ground arith

  pub kernel_of-refresh : (u : UserDto) (c : Ctx) → (refresh_cookies u c).kernel_id ≡ c.kernel_id
  unfolding refresh_cookies setup_access_cookies
  kernel_of-refresh u c = ground arith

  -- where the user is known
  authorised :
      (h : Handler S) (x : Ctx × S) {refresh : Text} {user : UserDto}
      → lookup rt_cookie_key x.0.cookies ≡ some refresh
      → (services.auth_user_id (or_empty (lookup at_cookie_key x.0.cookies)) refresh x.1).0
        ≡ some user
      → Granted h x ⊎ Refused h x
  unfolding guarded auth_middleware access_mw identified permitted unauthorized
  authorised h (c, s) {refresh} {user} token known =
      let r = services.auth_user_id (or_empty (lookup at_cookie_key c.cookies)) refresh s in
      let a = services.file_access user.id (or_empty c.kernel_id) r.1 in
      let d = record c { user_id = some user.id } in
      let same_user = user_of-refresh user d in
      let same_kernel = kernel_of-refresh user d in
      elim (Option-cases a.0) [
        | inl refused ↦ inr (record { status = ground arith; unhandled = λ k. ground arith })
        | inr (access, granted) ↦ elim (Bool-cases (contains_byte b'x' access)) [
          | inl may ↦ inl (record {
            refresh = refresh;
            user = user;
            access = access;
            token = token;
            known = known;
            asked = granted;
            may_execute = may;
            handled = ground arith;
          })
          | inr may_not ↦ inr (record { status = ground arith; unhandled = λ k. ground arith })
        ]
      ]

  -- A request either runs the handler, for the user of its tokens, whom the access service grants the
  -- right to execute the kernel of the request; or it ends with the status 401 without a handler.
  pub guarded-cases : (h : Handler S) (x : Ctx × S) → Granted h x ⊎ Refused h x
  unfolding guarded auth_middleware identified unauthorized
  guarded-cases h (c, s) = elim (Option-cases (lookup rt_cookie_key c.cookies)) [
    | inl missing ↦ inr (record { status = ground arith; unhandled = λ k. ground arith })
    | inr (refresh, token) ↦
        elim (Option-cases
          (services.auth_user_id (or_empty (lookup at_cookie_key c.cookies)) refresh s).0) [
            | inl unknown ↦ inr (record { status = ground arith; unhandled = λ k. ground arith })
            | inr (user, known) ↦ authorised h (c, s) token known
          ]
  ]
