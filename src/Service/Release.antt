-- ===== src/Service/Release.antt =====
-- The decision that a call returns, followed back to the filters or to the record.
use ea_trading_system.Prelude.{ℤ, String, ◌≡◌, ◌⊎◌, inl, inr, ap, ◌∙◌, Option, none, some, arith}
use ea_trading_system.Errors.{Exc, ok, conditional_write_failed}
use ea_trading_system.Act.{Act, after, after_catch}
use ea_trading_system.Json.{Fields, Value, str, get}
use ea_trading_system.Python.{Python}
use ea_trading_system.Validation.Request.{Request}
use ea_trading_system.Service.Providers.{
  Saved, DecisionRepository, MlProvider, LlmProvider, Settings,
}
use ea_trading_system.Service.Evaluate.{MlReport, LlmReport, evaluate}
use ea_trading_system.Service.Decide.{
  stored_answer, verdict, response_of, decide, decide_new, save_new, write_new, after_save, moment,
  reread, answer_or_decide,
}
use ea_trading_system.Service.Approval.{IsApproved, allow-IsApproved}

module _ {F W : Type 0} ⦃p : Python F⦄ (now : Act W ℤ) (repository : DecisionRepository F W)
    (ml : MlProvider F W) (llm : LlmProvider F W) (s : Settings F W) where
  -- The response stands in a record that the repository returned.
  pub record IsStored (id : String) (r : Fields F) : Type 0 where
    pub before : W
    pub later : W
    pub saved : Saved F
    pub read : repository.get_decision id before ≡ (ok (some saved), later)
    pub same : saved.response ≡ r

  -- The response was made from the reports of the two filters.
  pub record IsMade (q : Request F) (r : Fields F) : Type 0 where
    pub before : W
    pub later : W
    pub ml_report : MlReport F
    pub llm_report : LlmReport F
    pub evaluated : evaluate now ml llm s q before ≡ (ok (ml_report, llm_report), later)
    pub created : String
    pub expires : String
    pub same :
        response_of q.request_id
          (verdict s.llm_shadow_mode ml_report llm_report)
          ml_report
          llm_report
          created
          expires
        ≡ r

  stored_response :
      (message body_hash : String) (e : Saved F) (r : Fields F)
      → stored_answer message body_hash e ≡ ok r
      → e.response ≡ r
  stored_response message body_hash e r h = ground arith

  after_save-IsStored :
      (id body_hash : String) (e : Exc) (w w' : W) (r : Fields F)
      → after_save now repository ml llm s id body_hash e w ≡ (ok r, w')
      → IsStored id r
  unfolding after_save
  after_save-IsStored id body_hash conditional_write_failed w w' r h =
      after (repository.get_decision id) _ w r w' h λ o w₁ got h₁. from_read o w₁ got h₁
    where
      from_read :
          (o : Option (Saved F)) (w₁ : W)
          → repository.get_decision id w ≡ (ok o, w₁)
          → reread now repository ml llm s body_hash o w₁ ≡ (ok r, w')
          → IsStored id r
      from_read none w₁ got h₁ = absurd (ground arith)
      from_read (some e) w₁ got h₁ = record {
        before = w;
        later = w₁;
        saved = e;
        read = got;
        same = stored_response "concurrent request conflict" body_hash e r (ap (λ x. x.0) h₁);
      }
  after_save-IsStored id body_hash e w w' r h = absurd (ground arith)

  save_new-origin :
      (id body_hash : String) (response audit : Fields F) (ttl : ℤ) (w w' : W) (r : Fields F)
      → save_new now repository ml llm s id body_hash response ttl audit w ≡ (ok r, w')
      → (response ≡ r) ⊎ IsStored id r
  unfolding save_new
  save_new-origin id body_hash response audit ttl w w' r h =
      after_catch (write_new now repository ml llm s id body_hash response ttl audit) _ w r w' h
        (λ saved.
          after (repository.save_decision id body_hash response ttl audit) _ w r w' saved
            λ u w₁ wrote h₁. inl (ground arith))
        (λ e w₁ raised h₁. inr (after_save-IsStored id body_hash e w₁ w' r h₁))

  decide_new-origin :
      (q : Request F) (body_hash : String) (given : Option ℤ) (w w' : W) (r : Fields F)
      → decide_new now repository ml llm s q body_hash given w ≡ (ok r, w')
      → IsMade q r ⊎ IsStored q.request_id r
  unfolding decide_new
  decide_new-origin q body_hash given w w' r h =
      after (moment now repository ml llm s given) _ w r w' h λ created w₁ e₁ h₁.
        after (evaluate now ml llm s q) _ w₁ r w' h₁ λ reports w₂ e₂ h₂.
          elim (save_new-origin q.request_id body_hash _ _ _ w₂ w' r h₂) [
            | inl same ↦ inl (record {
              before = w₁;
              later = w₂;
              ml_report = reports.0;
              llm_report = reports.1;
              evaluated = e₂;
              created = _;
              expires = _;
              same = same;
            })
            | inr stored ↦ inr stored
          ]

  decide-origin :
      (q : Request F) (body_hash : String) (given : Option ℤ) (w w' : W) (r : Fields F)
      → decide now repository ml llm s q body_hash given w ≡ (ok r, w')
      → IsMade q r ⊎ IsStored q.request_id r
  unfolding decide
  decide-origin q body_hash given w w' r h =
      after (repository.get_decision q.request_id) _ w r w' h λ o w₁ got h₁. from_get o w₁ got h₁
    where
      from_get :
          (o : Option (Saved F)) (w₁ : W)
          → repository.get_decision q.request_id w ≡ (ok o, w₁)
          → answer_or_decide now repository ml llm s q body_hash given o w₁ ≡ (ok r, w')
          → IsMade q r ⊎ IsStored q.request_id r
      from_get none w₁ got h₁ = decide_new-origin q body_hash given w₁ w' r h₁
      from_get (some e) w₁ got h₁ = inr (record {
        before = w;
        later = w₁;
        saved = e;
        read = got;
        same =
            stored_response "request_id was used with a different body" body_hash e r
              (ap (λ x. x.0) h₁);
      })

  -- A call that returns the decision ALLOW either repeats a decision that the repository has on record
  -- for the request id, or its prediction met both thresholds and the language model, asked in time,
  -- answered ALLOW, or VETO in shadow mode.
  pub decide_allow :
      (q : Request F) (body_hash : String) (given : Option ℤ) (w w' : W) (r : Fields F)
      → decide now repository ml llm s q body_hash given w ≡ (ok r, w')
      → get "decision" r ≡ some (str "ALLOW")
      → IsStored q.request_id r ⊎ ((v : W) × (v' : W) × IsApproved now ml llm s q v v')
  unfolding response_of
  decide_allow q body_hash given w w' r h allowed =
      elim (decide-origin q body_hash given w w' r h) [
        | inr stored ↦ inl stored
        | inl made ↦ inr (
          made.before,
          made.later,
          allow-IsApproved now ml llm s q made.ml_report made.llm_report made.before made.later
              made.evaluated (allow_text (ap (get "decision") made.same ∙ allowed)),
        )
      ]
    where
      allow_text : {t u : String} → Path (Option (Value F)) (some (str t)) (some (str u)) → t ≡ u
      allow_text e = cc
