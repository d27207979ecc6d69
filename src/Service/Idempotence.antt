-- ===== src/Service/Idempotence.antt =====
-- A decision is stored before it is returned, and a call that finds it answers with it.
use mathlib.Core.Path.{subst, subst₂}
use ea_trading_system.Prelude.{ℤ, String, ◌≡◌, sym, ap, ◌∙◌, Option, none, some, eq_iff, arith}
use ea_trading_system.Errors.{Exc, ok, conditional_write_failed}
use ea_trading_system.Act.{Act, after, after_catch}
use ea_trading_system.Json.{Fields}
use ea_trading_system.Python.{Python}
use ea_trading_system.Validation.Request.{Request}
use ea_trading_system.Service.Providers.{
  Saved, DecisionRepository, MlProvider, LlmProvider, Settings,
}
use ea_trading_system.Service.Evaluate.{evaluate}
use ea_trading_system.Service.Decide.{
  stored_answer, decide, decide_new, save_new, write_new, after_save, moment, reread,
  answer_or_decide,
}

-- `view w id` is the decision on record for a request in the world `w`.
pub record RepositoryLaws {F W : Type 0} (repository : DecisionRepository F W)
    (view : W → String → Option (Saved F)) : Type 0 where
  pub get_reads :
      (id : String) (w w' : W) (o : Option (Saved F))
      → repository.get_decision id w ≡ (ok o, w')
      → (o ≡ view w id) × (view w' id ≡ view w id)
  pub save_writes :
      (id body_hash : String) (response audit : Fields F) (ttl : ℤ) (w w' : W)
      → repository.save_decision id body_hash response ttl audit w ≡ (ok tt, w')
      → view w' id ≡ some (record { body_hash = body_hash; response = response })

module _ {F : Type 0} where
  -- The answer from a record is the response of that record, for the hash of that record.
  stored_answer_lem :
      (message body_hash : String) (e : Saved F) (r : Fields F)
      → stored_answer message body_hash e ≡ ok r
      → some e ≡ some (record { body_hash = body_hash; response = r })
  stored_answer_lem message body_hash e r h = ground (arith, eq_iff e.body_hash body_hash)

ok-injective : {A : Type 0} {a b : A} → ok a ≡ ok b → a ≡ b
ok-injective h = cc

module _ {F W : Type 0} ⦃p : Python F⦄ (repository : DecisionRepository F W)
    {view : W → String → Option (Saved F)} (laws : RepositoryLaws repository view) (now : Act W ℤ)
    (ml : MlProvider F W) (llm : LlmProvider F W) (s : Settings F W) where
  abbrev Stores : String → String → Fields F → W → Type 0
  Stores id body_hash r w = view w id ≡ some (record { body_hash = body_hash; response = r })

  read-Stores :
      (message id body_hash : String) (w w₁ : W) (e : Saved F) (r : Fields F)
      → repository.get_decision id w ≡ (ok (some e), w₁)
      → stored_answer message body_hash e ≡ ok r
      → Stores id body_hash r w₁
  read-Stores message id body_hash w w₁ e r got h =
      let law = laws.get_reads id w w₁ (some e) got in
      law.1 ∙ sym law.0 ∙ stored_answer_lem message body_hash e r h

  after_save-Stores :
      (id body_hash : String) (e : Exc) (w w' : W) (r : Fields F)
      → after_save now repository ml llm s id body_hash e w ≡ (ok r, w')
      → Stores id body_hash r w'
  unfolding after_save
  after_save-Stores id body_hash conditional_write_failed w w' r h =
      after (repository.get_decision id) _ w r w' h λ o w₁ got h₁. from_read o w₁ got h₁
    where
      from_read :
          (o : Option (Saved F)) (w₁ : W)
          → repository.get_decision id w ≡ (ok o, w₁)
          → reread now repository ml llm s body_hash o w₁ ≡ (ok r, w')
          → Stores id body_hash r w'
      from_read none w₁ got h₁ = absurd (ground arith)
      from_read (some e) w₁ got h₁ =
          subst (Stores id body_hash r) (ap (λ x. x.1) h₁)
            (read-Stores "concurrent request conflict" id body_hash w w₁ e r got (ap (λ x. x.0) h₁))
  after_save-Stores id body_hash e w w' r h = absurd (ground arith)

  save_new-Stores :
      (id body_hash : String) (response audit : Fields F) (ttl : ℤ) (w w' : W) (r : Fields F)
      → save_new now repository ml llm s id body_hash response ttl audit w ≡ (ok r, w')
      → Stores id body_hash r w'
  unfolding save_new
  save_new-Stores id body_hash response audit ttl w w' r h =
      after_catch (write_new now repository ml llm s id body_hash response ttl audit) _ w r w' h
        (λ saved.
          after (repository.save_decision id body_hash response ttl audit) _ w r w' saved
            λ u w₁ wrote h₁.
              subst₂ (Stores id body_hash) (ok-injective (ap (λ x. x.0) h₁)) (ap (λ x. x.1) h₁)
                (laws.save_writes id body_hash response audit ttl w w₁ wrote))
        (λ e w₁ raised h₁. after_save-Stores id body_hash e w₁ w' r h₁)

  decide_new-Stores :
      (q : Request F) (body_hash : String) (given : Option ℤ) (w w' : W) (r : Fields F)
      → decide_new now repository ml llm s q body_hash given w ≡ (ok r, w')
      → Stores q.request_id body_hash r w'
  unfolding decide_new
  decide_new-Stores q body_hash given w w' r h =
      after (moment now repository ml llm s given) _ w r w' h λ created w₁ e₁ h₁.
        after (evaluate now ml llm s q) _ w₁ r w' h₁
          λ reports w₂ e₂ h₂. save_new-Stores q.request_id body_hash _ _ _ w₂ w' r h₂

  -- Whatever response `decide` returns, new or repeated, is the one on record for the request and the
  -- hash of its body when it returns; other calls may run while the providers are asked.
  pub decide-Stores :
      (q : Request F) (body_hash : String) (given : Option ℤ) (w w' : W) (r : Fields F)
      → decide now repository ml llm s q body_hash given w ≡ (ok r, w')
      → view w' q.request_id ≡ some (record { body_hash = body_hash; response = r })
  unfolding decide
  decide-Stores q body_hash given w w' r h =
      after (repository.get_decision q.request_id) _ w r w' h λ o w₁ got h₁. from_get o w₁ got h₁
    where
      from_get :
          (o : Option (Saved F)) (w₁ : W)
          → repository.get_decision q.request_id w ≡ (ok o, w₁)
          → answer_or_decide now repository ml llm s q body_hash given o w₁ ≡ (ok r, w')
          → Stores q.request_id body_hash r w'
      from_get none w₁ got h₁ = decide_new-Stores q body_hash given w₁ w' r h₁
      from_get (some e) w₁ got h₁ = subst (Stores q.request_id body_hash r) (ap (λ x. x.1) h₁) (
          read-Stores "request_id was used with a different body" q.request_id body_hash w w₁ e r
            got (ap (λ x. x.0) h₁))

module _ {F W : Type 0} ⦃p : Python F⦄ (repository : DecisionRepository F W)
    {view : W → String → Option (Saved F)} (laws : RepositoryLaws repository view) (now : Act W ℤ)
    (ml : MlProvider F W) (llm : LlmProvider F W) (s : Settings F W) where
  -- A call that finds a record answers from it.
  decide-Repeats :
      (q : Request F) (body_hash : String) (given : Option ℤ) (w w' : W) (hash : String)
      (r r' : Fields F)
      → view w q.request_id ≡ some (record { body_hash = hash; response = r })
      → decide now repository ml llm s q body_hash given w ≡ (ok r', w')
      → (hash ≡ body_hash) × (r ≡ r') × (view w' q.request_id ≡ view w q.request_id)
  unfolding decide
  decide-Repeats q body_hash given w w' hash r r' kept h =
      after (repository.get_decision q.request_id) _ w r' w' h λ o w₁ got h₁. from_get o w₁ got h₁
    where
      from_get :
          (o : Option (Saved F)) (w₁ : W)
          → repository.get_decision q.request_id w ≡ (ok o, w₁)
          → answer_or_decide now repository ml llm s q body_hash given o w₁ ≡ (ok r', w')
          → (hash ≡ body_hash) × (r ≡ r') × (view w' q.request_id ≡ view w q.request_id)
      from_get none w₁ got h₁ =
          let law = laws.get_reads q.request_id w w₁ none got in absurd (ground (arith, law, kept))
      from_get (some e) w₁ got h₁ =
          let law = laws.get_reads q.request_id w w₁ (some e) got in
          let found : some e ≡ some (record { body_hash = hash; response = r }) = law.0 ∙ kept in
          let answer : some e ≡ some (record { body_hash = body_hash; response = r' }) =
            stored_answer_lem "request_id was used with a different body" body_hash e r'
              (ap (λ x. x.0) h₁) in
          let both : some (record { body_hash = hash; response = r })
              ≡ some (record { body_hash = body_hash; response = r' }) =
            sym found ∙ answer in
          (
            ap hash_of both,
            ap response_of both,
            ap (λ u. view u q.request_id) (sym (ap (λ x. x.1) h₁)) ∙ law.1,
          )
        where
          hash_of : Option (Saved F) → String
          hash_of none = hash
          hash_of (some d) = d.body_hash

          response_of : Option (Saved F) → Fields F
          response_of none = r
          response_of (some d) = d.response

-- A call for a request id whose record a first call left, and which is still there when the second one
-- starts, returns only for the same body, with the response of the first call, and the record stays as
-- it was, whatever the providers, the settings and the clock say by then.
pub decide_idempotent :
    {F W : Type 0} ⦃p : Python F⦄ (repository : DecisionRepository F W)
    {view : W → String → Option (Saved F)} (laws : RepositoryLaws repository view)
    (now₁ now₂ : Act W ℤ) (ml₁ ml₂ : MlProvider F W) (llm₁ llm₂ : LlmProvider F W)
    (s₁ s₂ : Settings F W) (q₁ q₂ : Request F) (hash₁ hash₂ : String) (given₁ given₂ : Option ℤ)
    (w w' v v' : W) (r₁ r₂ : Fields F)
    → decide now₁ repository ml₁ llm₁ s₁ q₁ hash₁ given₁ w ≡ (ok r₁, w')
    → decide now₂ repository ml₂ llm₂ s₂ q₂ hash₂ given₂ v ≡ (ok r₂, v')
    → q₁.request_id ≡ q₂.request_id
    → view v q₁.request_id ≡ view w' q₁.request_id
    → (hash₁ ≡ hash₂) × (r₁ ≡ r₂) × (view v' q₁.request_id ≡ view v q₁.request_id)
decide_idempotent repository {view = view} laws now₁ now₂ ml₁ ml₂ llm₁ llm₂ s₁ s₂ q₁ q₂ hash₁ hash₂
      given₁ given₂ w w' v v' r₁ r₂ h k same stays =
    let a = decide-Stores repository laws now₁ ml₁ llm₁ s₁ q₁ hash₁ given₁ w w' r₁ h in
    let kept : view v q₂.request_id ≡ some (record { body_hash = hash₁; response = r₁ }) =
      ap (view v) (sym same) ∙ stays ∙ a in
    let (one, two, still) =
      decide-Repeats repository laws now₂ ml₂ llm₂ s₂ q₂ hash₂ given₂ v v' hash₁ r₁ r₂ kept k in
    (one, two, ap (view v') same ∙ still ∙ ap (view v) (sym same))
