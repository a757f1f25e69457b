-- ===== src/Backend/Request.antt =====
-- What a chat request is answered with by src/backend/backend.c.
use free_cli.Base.{
  ℕ, zero, suc, ◌≡◌, refl, Bool, true, not, ◌&&◌, List, [], ◌∷◌, ◌++◌, Option, none, some, ◌==◌,
  length, Option-cases, inl, inr,
}
use free_cli.Ipc.Wire.{Outcome, done, rejected, fault}
use free_cli.Chat.{
  ToolCall, Message, ChatBuffer, nonempty, chat_init, chat_add, chat_add_tool_calls,
}
use free_cli.Chat.Buffer.{IsValid, chat_init-IsValid, chat_add-Appends}
use free_cli.Fs.{CJson}
use free_cli.Backend.{
  Backend, ProviderReply, Providers, RequestArg, Sent, rep_final, session_rename, stored,
  trim_start, trim_end, add_turns_to, ask, run_subquery, run_ask_ai, is_ask_ai, run_tool, run_tools,
  agent_loop, naming_prompt, renamed, user_question, name_session, final_content, final_reasoning,
  supports_tools, auto_name, answer, handle_request, max_tool_iters,
}
use free_cli.Backend.Yields.{
  Yields, Yields-bind, Yields-done, if-Yields, Queries, no_query, query, Queries-append, Answers,
  fails, replies, names, stored-Yields, add_turns_to-Yields,
}

module _ {W V : Type 0} (providers : Providers W) (json : CJson V) where
  run_subquery-Yields :
      (b : Backend W) (corr : ℕ) (model prompt : List ℕ)
      → Yields
          (λ (r : Backend W × List Sent × List ℕ). Queries corr r.1)
          (run_subquery providers json b corr model prompt)
  unfolding run_subquery
  run_subquery-Yields b corr model prompt =
      Yields-bind IsValid _ (stored (chat_add chat_init prompt true)) _
        (stored-Yields chat_init _ _ ((chat_add-Appends chat_init chat_init-IsValid).0 prompt true))
        (λ cb v. unfold Yields in query _ model _ no_query)

  run_ask_ai-Yields :
      (b : Backend W) (corr : ℕ) (args : Option (List ℕ × List ℕ))
      → Yields
          (λ (r : Backend W × List Sent × List ℕ). Queries corr r.1)
          (run_ask_ai providers json b corr args)
  unfolding run_ask_ai
  run_ask_ai-Yields b corr none = unfold Yields in no_query
  run_ask_ai-Yields b corr (some (model, prompt)) = run_subquery-Yields b corr model prompt

  -- A valid history and sub-queries of the request.
  abbrev Goes : ℕ → Backend W × ChatBuffer × List Sent → Type 0
  Goes corr r = IsValid r.1 × Queries corr r.2

  run_tool-Yields :
      (b : Backend W) (corr : ℕ) (cb : ChatBuffer) (tc : ToolCall)
      → IsValid cb
      → Yields (Goes corr) (run_tool providers json b corr cb tc)
  unfolding run_tool
  run_tool-Yields b corr cb tc v =
      Yields-bind (λ (r : Backend W × List Sent × List ℕ). Queries corr r.1) (Goes corr) _ _
        (if-Yields _ (is_ask_ai providers json tc.name) _ _ (run_ask_ai-Yields b corr _)
          (Yields-done _ _ no_query))
        (λ r q.
          Yields-bind IsValid (Goes corr) _ _ (stored-Yields cb _ _ ((chat_add-Appends cb v).3 _ _))
            (λ cb' v'. Yields-done (Goes corr) (r.0, cb', r.1) (v', q)))

  run_tools-Yields :
      (b : Backend W) (corr : ℕ) (cb : ChatBuffer) (tcs : List ToolCall)
      → IsValid cb
      → Yields (Goes corr) (run_tools providers json b corr cb tcs)
  unfolding run_tools
  run_tools-Yields b corr cb [] v = unfold Yields in (v, no_query)
  run_tools-Yields b corr cb (tc ∷ tcs) v =
      Yields-bind (Goes corr) (Goes corr) (run_tool providers json b corr cb tc) _
        (run_tool-Yields b corr cb tc v)
        (λ r p.
          Yields-bind (Goes corr) (Goes corr) (run_tools providers json r.0 corr r.1 tcs) _
            (run_tools-Yields r.0 corr r.1 tcs p.0)
            (λ s q.
              Yields-done (Goes corr) (s.0, s.1, r.2 ++ s.2)
                (q.0, Queries-append corr r.2 s.2 p.1 q.1)))

  -- The same, with the plain reply that ended the loop.
  abbrev Ends : ℕ → Backend W × ChatBuffer × List Sent × Option ProviderReply → Type 0
  Ends corr r = IsValid r.1 × Queries corr r.2

  agent_loop-Yields :
      (n : ℕ) (b : Backend W) (ra : RequestArg) (prov : ℕ) (tools : Bool) (cb : ChatBuffer)
      → IsValid cb
      → Yields (Ends ra.corr_id) (agent_loop providers json n b ra prov tools cb)
  unfolding agent_loop
  agent_loop-Yields zero b ra prov tools cb v =
      Yields-done (Ends ra.corr_id) (b, cb, [], none) (v, no_query)
  agent_loop-Yields (suc n) b ra prov tools cb v =
      let r =
        ask providers json b (some prov)
          (record { history = cb; model = ra.model; enable_tools = tools }) in
      elim (Option-cases r.1) [
        | inl e ↦
            rw (e, agent_loop) (Yields-done (Ends ra.corr_id) (r.0, cb, [], none) (v, no_query))
        | inr (reply, e) ↦
            rw (e, agent_loop)
              (if-Yields (Ends ra.corr_id) (length reply.tool_calls == 0) _ _
                (Yields-done (Ends ra.corr_id) (r.0, cb, [], some reply) (v, no_query))
                (Yields-bind IsValid (Ends ra.corr_id)
                  (stored (chat_add_tool_calls cb reply.content reply.reasoning reply.tool_calls)) _
                  (stored-Yields cb _ _
                    ((chat_add-Appends cb v).2 reply.content reply.reasoning reply.tool_calls))
                  (λ cb₁ v₁.
                    Yields-bind (Goes ra.corr_id) (Ends ra.corr_id)
                      (run_tools providers json r.0 ra.corr_id cb₁ reply.tool_calls) _
                      (run_tools-Yields r.0 ra.corr_id cb₁ reply.tool_calls v₁)
                      (λ s p.
                        Yields-bind (Ends ra.corr_id) (Ends ra.corr_id)
                          (agent_loop providers json n s.0 ra prov tools s.1) _
                          (agent_loop-Yields n s.0 ra prov tools s.1 p.0)
                          (λ t q.
                            Yields-done (Ends ra.corr_id) (t.0, t.1, s.2 ++ t.2, t.3)
                              (q.0, Queries-append ra.corr_id s.2 t.2 p.1 q.1))))))
      ]

  -- Nothing, or a topic for the session.
  data Naming (idx : ℕ) : List Sent → Type 0 where
    unnamed : Naming idx []
    named : (topic : List ℕ) → Naming idx (session_rename idx topic ∷ [])

  renamed-Naming : (idx : ℕ) (r : Option ProviderReply) → Naming idx (renamed providers json idx r)
  unfolding renamed
  renamed-Naming idx none = unnamed
  renamed-Naming idx (some r) = elim (Option-cases (nonempty r.content)) [
    | inl e ↦ rw (e, renamed) unnamed
    | inr (text, e) ↦ rw (e, renamed) (topic (trim_end (trim_start text)))
  ]
    where
      topic :
          (t : List ℕ) → Naming idx (elim t [ [] ↦ [] | c ∷ cs ↦ session_rename idx (c ∷ cs) ∷ [] ])
      topic [] = unnamed
      topic (c ∷ cs) = named (c ∷ cs)

  Named : ℕ → Backend W × List Sent → Type 0
  Named idx r = Naming idx r.1

  name_session-Yields :
      (b : Backend W) (idx : ℕ) (content : List ℕ) (question : Option (List ℕ))
      → Yields (Named idx) (name_session providers json b idx content question)
  unfolding name_session Named
  name_session-Yields b idx content none = Yields-done (Named idx) (b, []) unnamed
  name_session-Yields b idx content (some question) =
      Yields-bind IsValid (Named idx)
        (stored (chat_add chat_init (naming_prompt providers json question content) true)) _
        (stored-Yields chat_init _ _ (
          (chat_add-Appends chat_init chat_init-IsValid).0
            (naming_prompt providers json question content) true))
        (λ cb v. Yields-done (Named idx) _ (renamed-Naming idx _))

  auto_name-Yields :
      (b : Backend W) (ra : RequestArg) (content : List ℕ) (msgs : List Message)
      → Yields (Named ra.session_idx) (auto_name providers json b ra content msgs)
  unfolding auto_name
  auto_name-Yields b ra content msgs =
      if-Yields (Named ra.session_idx) (length ra.turns == 1 && not (length content == 0)) _ _
        (name_session-Yields b ra.session_idx content (user_question providers json msgs))
        (Yields-done (Named ra.session_idx) (b, []) (unfold Named in unnamed))

  Naming-Answers :
      (corr idx : ℕ) (ms naming : List Sent) (content : List ℕ) (reasoning : Option (List ℕ))
      → Queries corr ms
      → Naming idx naming
      → Answers corr idx (ms ++ rep_final idx content reasoning ∷ naming)
  Naming-Answers corr idx ms _ content reasoning q unnamed = replies content reasoning q
  Naming-Answers corr idx ms _ content reasoning q (named topic) = names content reasoning topic q

  Answered : RequestArg → Backend W × List Sent → Type 0
  Answered ra r = Answers ra.corr_id ra.session_idx r.1

  answer-Yields :
      (b : Backend W) (ra : RequestArg) (prov : Option ℕ)
      → Yields (Answered ra) (answer providers json b ra prov)
  unfolding answer Answered Named
  answer-Yields b ra none = Yields-done (Answered ra) (b, _) (fails _)
  answer-Yields b ra (some prov) =
      let tools = supports_tools providers json ra.provider_id in
      Yields-bind IsValid (Answered ra) (add_turns_to chat_init ra.turns) _
        (add_turns_to-Yields chat_init ra.turns chat_init-IsValid)
        (λ cb v.
          Yields-bind (Ends ra.corr_id) (Answered ra)
            (agent_loop providers json max_tool_iters b ra prov tools cb) _
            (agent_loop-Yields max_tool_iters b ra prov tools cb v)
            (λ s p.
              Yields-bind (Named ra.session_idx) (Answered ra)
                (auto_name providers json s.0 ra (final_content providers json s.3) s.1.msgs) _
                (auto_name-Yields s.0 ra (final_content providers json s.3) s.1.msgs)
                (λ t q.
                  Yields-done (Answered ra)
                    (
                      t.0,
                      s.2
                          ++ rep_final ra.session_idx (final_content providers json s.3)
                              (final_reasoning providers json s.3)
                            ∷ t.1,
                    )
                    (Naming-Answers ra.corr_id ra.session_idx s.2 t.1 _ _ p.1 q))))

  Yields-result :
      (ra : RequestArg) (o : Outcome (Backend W × List Sent))
      → Yields (Answered ra) o
      → (r : Backend W × List Sent) × (o ≡ done r) × Answers ra.corr_id ra.session_idx r.1
  unfolding Yields Answered
  Yields-result ra (done r) p = (r, refl, p)
  Yields-result ra rejected p = absurd p
  Yields-result ra fault p = absurd p

  -- Whatever the providers answer, a chat request ends and is answered once: with an error, or
  -- with sub-queries that each begin and end under the request's id, then one final reply for the
  -- request's session, and then at most one topic for that session.
  pub handle_request-Answers :
      (b : Backend W) (ra : RequestArg)
      → (r : Backend W × List Sent) × (handle_request providers json b ra ≡ done r)
        × Answers ra.corr_id ra.session_idx r.1
  unfolding handle_request
  handle_request-Answers b ra = Yields-result ra _ (answer-Yields _ ra _)
