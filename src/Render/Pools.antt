-- ===== src/Render/Pools.antt =====
-- The file of the worker pools that internal/application/gitopsrender/render.go writes.
use talos_app.Prelude.{◌≡◌, refl, sym, ap, ◌∙◌, String, false, inl, inr, List, [], ◌∷◌, str_append}
use text.Mathlib.TextLemmas.{append_assoc, nil-append, append-nil}
use talos_app.Exec.{Result, ok, err, wrap_result}
use talos_app.Exec.Ensures.{Result-cases}
use talos_app.Domain.Cluster.{WorkerPoolSpec}
use talos_app.Render.{Document, worker_pool_document, render_pools, render_worker_pools}

infixl 10 ◌>>=◌
abbrev ◌>>=◌ : {A B : Type 0} → Result A → (A → Result B) → Result B
ok a >>= f = f a
err x >>= f = err x

-- The documents of a list, the first error winning.
abbrev pub all_documents :
    (WorkerPoolSpec → Result String) → List WorkerPoolSpec → Result (List String)
all_documents write [] = ok []
all_documents write (p ∷ rest) = do doc ← write p; docs ← all_documents write rest; ok (doc ∷ docs)

-- Texts with a separator line between them.
abbrev pub after_each : List String → String
after_each [] = ""
after_each (d ∷ ds) = str_append "---\n" (str_append d (after_each ds))

abbrev pub joined : List String → String
joined [] = "# no worker pools defined\n"
joined (d ∷ ds) = str_append d (after_each ds)

abbrev pub map_ok : {A B : Type 0} → (A → B) → Result A → Result B
map_ok f (ok a) = ok (f a)
map_ok f (err x) = err x

module _ (marshal : Document → Result String) (cluster : String) where
  abbrev pub write_pool : WorkerPoolSpec → Result String
  write_pool p = wrap_result "rendering worker pool %q" (marshal (worker_pool_document cluster p))

  join_step :
      (out doc : String) (r : Result (List String))
      → map_ok (λ ds. str_append (str_append (str_append out "---\n") doc) (after_each ds)) r
        ≡ map_ok (λ ds. str_append out (after_each ds)) (r >>= λ docs. ok (doc ∷ docs))
  join_step out doc (ok ds) = ap ok (append_assoc _ doc (after_each ds) ∙ append_assoc out _ _)
  join_step out doc (err x) = refl

  render_pools-rest :
      (ps : List WorkerPoolSpec) (out : String)
      → render_pools marshal cluster false out ps
        ≡ map_ok (λ ds. str_append out (after_each ds)) (all_documents write_pool ps)
  unfolding render_pools
  render_pools-rest [] out = ap ok (sym (append-nil out))
  render_pools-rest (p ∷ rest) out =
      elim (Result-cases (marshal (worker_pool_document cluster p))) [
        | inl (doc, e) ↦
            rw e (render_pools-rest rest _ ∙ join_step out doc (all_documents write_pool rest))
        | inr (x, e) ↦ rw e refl
      ]

  first_step :
      (doc : String) (r : Result (List String))
      → map_ok (λ ds. str_append (str_append "" doc) (after_each ds)) r
        ≡ map_ok joined (r >>= λ docs. ok (doc ∷ docs))
  first_step doc (ok ds) = ap (λ t. ok (str_append t (after_each ds))) (nil-append doc)
  first_step doc (err x) = refl

  -- The loop over the worker pools writes the documents of the pools in order with a separator line
  -- between each two, or the text for no pools, and fails with the error of the first pool that cannot
  -- be written.
  pub render_worker_pools-joined :
      (ps : List WorkerPoolSpec)
      → render_worker_pools marshal cluster ps ≡ map_ok joined (all_documents write_pool ps)
  unfolding render_worker_pools
  render_worker_pools-joined [] = refl
  render_worker_pools-joined (p ∷ rest) =
      elim (Result-cases (marshal (worker_pool_document cluster p))) [
        | inl (doc, e) ↦
            rw e (render_pools-rest rest _ ∙ first_step doc (all_documents write_pool rest))
        | inr (x, e) ↦ rw e refl
      ]
