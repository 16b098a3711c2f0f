-- ===== src/Mcp/Routes/Batch.antt =====
-- What a batch of messages is answered.
use db_backup.Prelude.{ℕ, ◌≡◌, refl, Bool, true, false, List, [], ◌∷◌, ◌++◌, arith}
use db_backup.Mcp.{McpKey, World, Outside}
use db_backup.Mcp.Tools.{tool_summaries}
use db_backup.Mcp.Dispatch.{dispatch_tool}
use db_backup.Mcp.Routes.{
  Message, skipped, notification, initialize, ping, tools_list, tools_call, other, Reply, accepted,
  unauthorized, responses, Response, initialized, pong, tools, called, method_not_found, context_of,
  answer_with, handle_messages,
}

unfoldable pub has_notification : List Message → Bool
has_notification [] = false
has_notification (notification ∷ ms) = true
has_notification (skipped ∷ ms) = has_notification ms
has_notification (initialize ∷ ms) = has_notification ms
has_notification (ping ∷ ms) = has_notification ms
has_notification (tools_list ∷ ms) = has_notification ms
has_notification (tools_call name args ∷ ms) = has_notification ms
has_notification (other method ∷ ms) = has_notification ms

module _ (out : Outside) (now : ℕ) (k : McpKey) where
  answer_with-accepted :
      (r : Response) (p : World × Reply) (w : World)
      → p ≡ (w, accepted)
      → answer_with out now k r p ≡ (w, accepted)
  unfolding answer_with
  answer_with-accepted r (v, unauthorized) w h = ground (arith, h)
  answer_with-accepted r (v, accepted) w h = h
  answer_with-accepted r (v, responses rs) w h = ground (arith, h)

  answer_with-world : (r : Response) (p : World × Reply) → (answer_with out now k r p).0 ≡ p.0
  unfolding answer_with
  answer_with-world r (v, unauthorized) = refl
  answer_with-world r (v, accepted) = refl
  answer_with-world r (v, responses rs) = refl

  answered :
      (r : Response) (before after : List Message) (w : World)
      → handle_messages out now k (before ++ notification ∷ after) w
        ≡ ((handle_messages out now k before w).0, accepted)
      → answer_with out now k r (handle_messages out now k (before ++ notification ∷ after) w)
        ≡ ((answer_with out now k r (handle_messages out now k before w)).0, accepted)
  answered r before after w h =
      rw (answer_with-world r (handle_messages out now k before w)) (answer_with-accepted r _ _ h)

  -- A notification behind other messages, none of them a notification: these are carried out, and the
  -- reply is the empty one all the same.
  pub handle_messages-notification :
      (before after : List Message) (w : World)
      → has_notification before ≡ false
      → handle_messages out now k (before ++ notification ∷ after) w
        ≡ ((handle_messages out now k before w).0, accepted)
  unfolding handle_messages has_notification
  handle_messages-notification [] after w h = refl
  handle_messages-notification (notification ∷ ms) after w h = cc
  handle_messages-notification (skipped ∷ ms) after w h = handle_messages-notification ms after w h
  handle_messages-notification (initialize ∷ ms) after w h =
      answered initialized ms after w (handle_messages-notification ms after w h)
  handle_messages-notification (ping ∷ ms) after w h =
      answered pong ms after w (handle_messages-notification ms after w h)
  handle_messages-notification (tools_list ∷ ms) after w h =
      answered (tools (tool_summaries k.scopes)) ms after w
        (handle_messages-notification ms after w h)
  handle_messages-notification (tools_call name args ∷ ms) after w h =
      let did = dispatch_tool out now name args (context_of k) w in
      answered (called did.1) ms after did.0 (handle_messages-notification ms after did.0 h)
  handle_messages-notification (other method ∷ ms) after w h =
      answered (method_not_found method) ms after w (handle_messages-notification ms after w h)
