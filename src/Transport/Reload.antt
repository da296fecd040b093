-- ===== src/Transport/Reload.antt =====
-- The reload of the certificate in src/tls/tls_context.cpp, one SIGHUP after the other.
use castle_plus.Prelude.{
  ◌≡◌, refl, sym, ap, ◌∙◌, true, ◌&&◌, List, [], ◌∷◌, ◌++◌, none, some, Bytes, if◌then◌else◌, arith,
}
use castle_plus.Transport.{SslCalls, build_ctx, TlsContext, reload, reload_all, wrap}

module _ {C : Type 0} where
  -- The contexts that the calls build from matching files, in order.
  unfoldable pub fresh : SslCalls C → List C
  fresh calls = elim calls.ctx [
    | none ↦ []
    | some ctx ↦ if calls.certificate && (calls.key && calls.matching) then ctx ∷ [] else []
  ]

  unfoldable pub all_fresh : List (SslCalls C) → List C
  unfolding fresh
  all_fresh [] = []
  all_fresh (calls ∷ more) = fresh calls ++ all_fresh more

  -- The last of the contexts, and `ctx` where there is none.
  unfoldable pub last_or : C → List C → C
  last_or ctx [] = ctx
  last_or ctx (c ∷ cs) = last_or c cs

  last_or-append : (ctx : C) (xs ys : List C) → last_or ctx (xs ++ ys) ≡ last_or (last_or ctx xs) ys
  unfolding last_or
  last_or-append ctx [] ys = refl
  last_or-append ctx (x ∷ xs) ys = last_or-append x xs ys

  -- The context in force is `ctx`, from these paths.
  abbrev pub in_force : C → Bytes → Bytes → TlsContext C
  in_force ctx cert key = record { ctx = some ctx; cert_path = cert; key_path = key }

  reload-fresh :
      (calls : SslCalls C) (ctx : C) (cert key : Bytes)
      → (reload calls (in_force ctx cert key)).0 ≡ in_force (last_or ctx (fresh calls)) cert key
  unfolding reload build_ctx fresh last_or
  reload-fresh calls ctx cert key = ground arith

  reload_all_lem :
      (more : List (SslCalls C)) (ctx : C) (cert key : Bytes)
      → reload_all more (in_force ctx cert key) ≡ in_force (last_or ctx (all_fresh more)) cert key
  unfolding reload_all all_fresh last_or
  reload_all_lem [] ctx cert key = refl
  reload_all_lem (calls ∷ more) ctx cert key =
      ap (reload_all more) (reload-fresh calls ctx cert key)
      ∙ reload_all_lem more (last_or ctx (fresh calls)) cert key
      ∙ ap (λ c. in_force c cert key) (sym (last_or-append ctx (fresh calls) (all_fresh more)))

  -- Behind any reloads, the context in force is the last one that was built from files that load and match, and the one
  -- of `init` if none was; the paths stay those of `init`, and a new connection gets that context.
  pub reload_all-fresh :
      (more : List (SslCalls C)) (ctx : C) (cert key : Bytes)
      → let t = reload_all more (in_force ctx cert key) in
        (t ≡ in_force (last_or ctx (all_fresh more)) cert key)
        × (wrap true t ≡ some (last_or ctx (all_fresh more)))
  unfolding wrap
  reload_all-fresh more ctx cert key =
      let e = reload_all_lem more ctx cert key in (e, ap TlsContext.ctx e)
