-- ===== src/Config/Laws.antt =====
-- Laws of the configuration (api/internal/config/config.go, Load).
use jejak_inderasakti_be.Shared.{
  if_false, if_true, ◌∙◌, pos_part, String-discrete, ℕ, ℤ, pos, negsuc, ◌≡◌, ◌≢◌, ◌⊎◌, inl, inr,
  ◌↔◌, refl, sym, ap, String, Option, none, some, if◌then◌else◌, same, arith,
}
use jejak_inderasakti_be.Config.{
  no_database_url, Config, TextTools, Loaded, loaded, refused, getenv, read_limit, join_limit,
  with_limit, config_of, load_config,
}

-- The limit that the environment asks for: a number that is not negative, or without a text none (0) in
-- development and 10 elsewhere.
abbrev pub IsLimit : TextTools → (String → String) → ℕ → Type 0
IsLimit tools os limit =
    ((os "RATE_LIMIT_JOIN_PER_MIN" ≢ "")
      × (tools.atoi (os "RATE_LIMIT_JOIN_PER_MIN") ≡ some (pos limit)))
    ⊎ ((os "RATE_LIMIT_JOIN_PER_MIN" ≡ "")
        × (limit ≡ (if same (getenv os "ENV" "development") "development" then 0 else 10)))

module _ (tools : TextTools) (os : String → String) where
  read_limit_iff :
      (o : Option ℤ) (limit : ℕ) → (read_limit tools o ≡ loaded limit) ↔ (o ≡ some (pos limit))
  unfolding read_limit
  read_limit_iff none limit = ((λ e. cc), (λ e. cc))
  read_limit_iff (some (pos n)) limit = (
    (λ e. let q : n ≡ limit = cc in ap (λ z. some (pos z)) q),
    (λ e. let q : pos n ≡ pos limit = cc in ap loaded (ap pos_part q)),
  )
  read_limit_iff (some (negsuc n)) limit =
      ((λ e. cc), (λ e. let q : negsuc n ≡ pos limit = cc in cc))

  join_limit_iff :
      (limit : ℕ)
      → (join_limit tools (os "RATE_LIMIT_JOIN_PER_MIN") (getenv os "ENV" "development")
          ≡ loaded limit)
        ↔ IsLimit tools os limit
  unfolding join_limit
  join_limit_iff limit =
      let raw = os "RATE_LIMIT_JOIN_PER_MIN" in
      let usual : ℕ = if same (getenv os "ENV" "development") "development" then 0 else 10 in
      elim (String-discrete raw "") [
        | yes unset ↦
            let d : join_limit tools raw (getenv os "ENV" "development") ≡ loaded usual =
              if_true {b = same raw ""} (loaded usual) (read_limit tools (tools.atoi raw))
                (ground (arith, unset)) in
            (
              (λ e.
                  let q : loaded usual ≡ loaded limit = sym d ∙ e in
                  let n : usual ≡ limit = cc in inr (unset, sym n)),
              (λ k. elim k [
                | inl (set, read) ↦ absurd (set unset)
                | inr (_, n) ↦ d ∙ ap loaded (sym n)
              ]),
            )
        | no set ↦
            let d : join_limit tools raw (getenv os "ENV" "development")
                ≡ read_limit tools (tools.atoi raw) =
              if_false {b = same raw ""} (loaded usual) (read_limit tools (tools.atoi raw))
                (ground (arith, set)) in
            (
              (λ e. inl (set, (read_limit_iff (tools.atoi raw) limit).0 (sym d ∙ e))),
              (λ k. elim k [
                | inl (_, read) ↦ d ∙ (read_limit_iff (tools.atoi raw) limit).1 read
                | inr (unset, _) ↦ absurd (set unset)
              ]),
            )
      ]

  with_limit_iff :
      (found : Loaded ℕ) (c : Config)
      → (with_limit tools os found ≡ loaded c)
        ↔ ((limit : ℕ) × (found ≡ loaded limit) × (c ≡ config_of tools os limit))
  unfolding with_limit
  with_limit_iff (refused e) c = ((λ q. cc), (λ (limit, f, q). cc))
  with_limit_iff (loaded limit) c = (
    (λ q. let r : config_of tools os limit ≡ c = cc in (limit, refl, sym r)),
    (λ (n, f, q). let r : limit ≡ n = cc in ap loaded (ap (config_of tools os) r ∙ sym q)),
  )

  -- The configuration is loaded exactly when there is a database URL and a readable limit of joins: a
  -- number that is not negative, or without one 0 in development and 10 elsewhere. It is then that of
  -- the environment.
  pub load_config_iff :
      (c : Config)
      → (load_config tools os ≡ loaded c) ↔ (
          (os "DATABASE_URL" ≢ "")
          × ((limit : ℕ) × IsLimit tools os limit × (c ≡ config_of tools os limit)))
  unfolding load_config
  load_config_iff c =
      let found = join_limit tools (os "RATE_LIMIT_JOIN_PER_MIN") (getenv os "ENV" "development") in
      elim (String-discrete (os "DATABASE_URL") "") [
        | yes unset ↦
            let d : load_config tools os ≡ refused no_database_url =
              if_true {b = same (os "DATABASE_URL") ""} (refused no_database_url)
                (with_limit tools os found) (ground (arith, unset)) in
            (
              (λ e. let q : refused no_database_url ≡ loaded c = sym d ∙ e in cc),
              (λ (set, rest). absurd (set unset)),
            )
        | no set ↦
            let d : load_config tools os ≡ with_limit tools os found =
              if_false {b = same (os "DATABASE_URL") ""} (refused no_database_url)
                (with_limit tools os found) (ground (arith, set)) in
            (
              (λ e.
                  let (limit, f, q) = (with_limit_iff found c).0 (sym d ∙ e) in
                  (set, (limit, (join_limit_iff limit).0 f, q))),
              (λ (_, (limit, l, q)).
                  d ∙ (with_limit_iff found c).1 (limit, (join_limit_iff limit).1 l, q)),
            )
      ]
