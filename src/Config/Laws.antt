-- ===== src/Config/Laws.antt =====
-- What `postLogoutRedirectUri` of web/src/lib/config.ts gives.
use lab_keeper.Common.{
  Bool-cases, Option, Text, [], ap, arith, drop, drop-append, ends_with, false, inl, inr, length,
  length-append, none, refl, slice_off, some, sym, take, take-append, take-append-drop, text,
  text_eq_iff, text_eq_refl, true, truthy, ◌++◌, ◌-◌, ◌∙◌, ◌∷◌, ◌≡◌, ◌≢◌, ◌⊎◌,
}
use lab_keeper.Config.{
  Env, redirect_uri, post_logout_redirect_uri, derived_logout_uri, configured_logout_uri,
  default_post_logout_redirect_uri,
}

sub_of_append : (p s : Text) → length (p ++ s) - length s ≡ length p
sub_of_append p s = omega (arith, length-append p s)

pub ends_with-append : (p s : Text) → ends_with (p ++ s) s ≡ true
unfolding ends_with
ends_with-append p s =
    rw (sub_of_append p s, drop-append p s, text_eq_refl s) (ground (arith, length-append p s))

pub slice_off-append : (p s : Text) → slice_off (p ++ s) (length s) ≡ p
unfolding slice_off
slice_off-append p s = rw (sub_of_append p s) (take-append p s)

-- A text that passes the test is one with the suffix.
pub ends_with_sound : (t s : Text) → ends_with t s ≡ true → (p : Text) × (t ≡ p ++ s)
unfolding ends_with
ends_with_sound t s h =
    let same : drop (length t - length s) t ≡ s =
      (text_eq_iff (drop (length t - length s) t) s).0 (ground arith) in
    (
      take (length t - length s) t,
      sym (take-append-drop (length t - length s) t)
          ∙ ap (λ r. take (length t - length s) t ++ r) same,
    )

-- How the address for after the logout comes about.
abbrev pub LogoutUri : Option Text → Text → Text → Type 0
LogoutUri configured redirect result =
    ((c : Text) × (configured ≡ some c) × (c ≢ []) × (result ≡ c))
    ⊎ ((truthy configured ≡ false)
        × (((p : Text) × (redirect ≡ p ++ text "/callback") × (result ≡ p ++ text "/login"))
            ⊎ (((p : Text) → redirect ≢ p ++ text "/callback")
                × (result ≡ default_post_logout_redirect_uri))))

derived_logout_uri-append :
    (p : Text) → derived_logout_uri (p ++ text "/callback") ≡ p ++ text "/login"
unfolding derived_logout_uri
derived_logout_uri-append p =
    rw (ends_with-append p (text "/callback"), slice_off-append p (text "/callback"))

derived_logout_uri-LogoutUri :
    (configured : Option Text) (redirect : Text)
    → truthy configured ≡ false
    → LogoutUri configured redirect (derived_logout_uri redirect)
unfolding derived_logout_uri
derived_logout_uri-LogoutUri configured redirect h =
    elim (Bool-cases (ends_with redirect (text "/callback"))) [
      | inl found ↦
          let (p, e) = ends_with_sound redirect (text "/callback") found in
          inr (h, inl (p, e, ap derived_logout_uri e ∙ derived_logout_uri-append p))
      | inr missing ↦ inr (h, inr (λ p e. cc (ends_with-append p (text "/callback")), rw missing))
    ]

configured_logout_uri-LogoutUri :
    (configured : Option Text) (redirect : Text)
    → LogoutUri configured redirect (configured_logout_uri configured (derived_logout_uri redirect))
unfolding configured_logout_uri
configured_logout_uri-LogoutUri none redirect = derived_logout_uri-LogoutUri none redirect refl
configured_logout_uri-LogoutUri (some []) redirect =
    derived_logout_uri-LogoutUri (some []) redirect refl
configured_logout_uri-LogoutUri (some (c ∷ s)) redirect = inl (c ∷ s, refl, (cc), refl)

-- A configured post-logout address wins unless it is empty. Otherwise a redirect address that is
-- some text followed by "/callback" gives that text followed by "/login", and any other redirect
-- address gives the default.
pub post_logout_redirect_uri-LogoutUri :
    (env : Env)
    → LogoutUri env.oidc_post_logout_redirect_uri (redirect_uri env) (post_logout_redirect_uri env)
unfolding post_logout_redirect_uri
post_logout_redirect_uri-LogoutUri env =
    configured_logout_uri-LogoutUri env.oidc_post_logout_redirect_uri (redirect_uri env)
