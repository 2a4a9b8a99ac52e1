-- ===== src/Middlewares.antt =====
-- internal/middlewares and internal/cookies: what stands before a handler. The request and the
-- response are `Ctx`; the gRPC services that decide are parameters, over the state `S`.
pub mod Access
pub mod Inv
use noted_runner.Prelude.{
  ℕ, Bool, true, false, Option, none, some, List, [], ◌∷◌, ◌++◌, ◌==◌, if◌then◌else◌, Text, ascii,
  lookup, insert,
}

-- a cookie of the response
pub record Cookie : Type 0 where
  pub key : Text
  pub value : Text
  pub max_age : Option ℕ
  pub http_only : Bool
  pub secure : Bool
  pub lax : Bool
  pub path : Text

pub record Ctx : Type 0 where
  pub request_id : Option Text
  pub cookies : List (Text × Text)
  pub kernel_id : Option Text
  -- the user value `user_id`
  pub user_id : Option Text
  pub status : ℕ
  -- the cookies that SetCookie was called with, in order
  pub set_cookies : List Cookie

-- the answer of AuthUserIDCtx
pub record UserDto : Type 0 where
  pub id : Text
  pub at : Option Text
  pub rt : Option Text
  pub it : Option Text

-- AuthUserIDCtx of the access and the refresh token, FileAccessCtx of a user and a file: none
-- where the call fails, or the answer
pub record Services (S : Type 0) : Type 0 where
  pub auth_user_id : Text → Text → S → Option UserDto × S
  pub file_access : Text → Text → S → Option Text × S

abbrev pub Handler : Type 0 → Type 0
Handler S = Ctx × S → Ctx × S

-- `cookie(key, value)` of the response, valid for `age` seconds
access_cookie : Text → Text → Option ℕ → Cookie
access_cookie key value age = record {
  key = key;
  value = value;
  max_age = age;
  http_only = true;
  secure = true;
  lax = true;
  path = ascii "/";
}

-- internal/consts/consts.go
abbrev pub at_cookie_key : Text
at_cookie_key = ascii "NTD-DNAnAT"

abbrev pub rt_cookie_key : Text
rt_cookie_key = ascii "NTD-DNART"

abbrev pub idt_cookie_key : Text
idt_cookie_key = ascii "NTD-DNALT"

unfoldable pub setup_access_cookies : Text → Text → Text → Ctx → Ctx
unfolding access_cookie
setup_access_cookies at rt it c = record c {
  set_cookies =
      c.set_cookies
      ++ access_cookie at_cookie_key at (some 1_200)
        ∷ access_cookie rt_cookie_key rt (some 4_320_000)
        ∷ access_cookie idt_cookie_key it none
        ∷ [];
  cookies = insert idt_cookie_key it (insert rt_cookie_key rt (insert at_cookie_key at c.cookies));
}

-- a string of bytes that may be nil
abbrev pub or_empty : Option Text → Text
or_empty none = []
or_empty (some x) = x

unfoldable pub unauthorized : Ctx → Ctx
unauthorized c = record c { status = 401 }

-- the three tokens are new together or not at all
unfoldable pub refresh_cookies : UserDto → Ctx → Ctx
unfolding setup_access_cookies
refresh_cookies u c = elim u.at [
  | none ↦ c
  | some at ↦ elim u.rt [
    | none ↦ c
    | some rt ↦ elim u.it [ none ↦ c | some it ↦ setup_access_cookies at rt it c ]
  ]
]

-- strings.Contains for a single byte
unfoldable pub contains_byte : ℕ → Text → Bool
contains_byte b [] = false
contains_byte b (x ∷ xs) = let rest = contains_byte b xs in if x == b then true else rest

module _ {S : Type 0} (services : Services S) where
  unfoldable pub identified : Handler S → Ctx → Option UserDto × S → Ctx × S
  unfolding refresh_cookies unauthorized
  identified h c (some u, s) = h (refresh_cookies u (record c { user_id = some u.id }), s)
  identified h c (none, s) = (unauthorized c, s)

  -- `AuthMiddleware`
  unfoldable pub auth_middleware : Handler S → Handler S
  unfolding identified unauthorized
  auth_middleware h (c, s) = elim (lookup rt_cookie_key c.cookies) [
    | none ↦ (unauthorized c, s)
    | some rt ↦
        identified h c (services.auth_user_id (or_empty (lookup at_cookie_key c.cookies)) rt s)
  ]

  unfoldable pub permitted : Handler S → Ctx → Option Text × S → Ctx × S
  unfolding unauthorized contains_byte
  permitted h c (some access, s) =
      if contains_byte b'x' access then h (c, s) else (unauthorized c, s)
  permitted h c (none, s) = (unauthorized c, s)

  -- `AccessMW.MW`, behind `AuthMiddleware`
  unfoldable pub access_mw : Handler S → Handler S
  unfolding permitted
  access_mw h (c, s) =
      permitted h c (services.file_access (or_empty c.user_id) (or_empty c.kernel_id) s)

  -- the handler of the route, `RegisterRoutes`
  unfoldable pub guarded : Handler S → Handler S
  unfolding auth_middleware access_mw
  guarded h = auth_middleware (access_mw h)

-- `CommonMiddleware`: `fresh` is the identifier that it generates
unfoldable pub common_middleware : {S : Type 0} → Text → Handler S → Handler S
common_middleware fresh h (c, s) = elim c.request_id [
  | none ↦ h (record c { request_id = some fresh }, s)
  | some x ↦ h (c, s)
]
