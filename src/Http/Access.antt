-- ===== src/Http/Access.antt =====
-- Which requests may read and change what.
use miss_raspberry_agent.Prelude.{ℤ, ◌≡◌, refl, ◌≢◌, false, ◌++◌, arith, codes, text_eq}
use miss_raspberry_agent.Http.{
  Api, HttpRequest, World, Response, Route, route, get_liveness, post_message, post_tag_set,
  no_route, is_authorized, respond, failure, unauthorized, alive, handle, handle_route, handle_api,
  send, register,
}

-- What the router answers without the token
pub data Public (api : Api) (req : HttpRequest) : Response → Type 0 where
  liveness : route req ≡ get_liveness → Public api req (respond 200 alive)
  unknown : route req ≡ no_route → Public api req (api.unrouted req)
  denied : route req ≢ get_liveness → Public api req (respond 401 (failure unauthorized))

module _ (api : Api) (now : ℤ) (req : HttpRequest) where
  denied_at :
      (r : Route)
      → route req ≡ r
      → (w : World) → text_eq req.authorization (codes "Bearer " ++ api.token) ≡ false
      → ((handle_route api now r req w).0 ≡ w)
        × Public api req (handle_route api now r req w).1
        × ((w' : World) → (handle_route api now r req w').1 ≡ (handle_route api now r req w).1)
  unfolding handle_route is_authorized
  denied_at get_liveness e w h = (refl, liveness e, λ w'. refl)
  denied_at no_route e w h = (refl, unknown e, λ w'. refl)
  denied_at r e w h = rw h (refl, denied (λ k. absurd (ground (arith, e, k))), λ w'. refl)

  frame_at :
      (r : Route) (w : World)
      → (r ≢ post_message → (handle_route api now r req w).0.queue ≡ w.queue)
        × (r ≢ post_tag_set → (handle_route api now r req w).0.sets ≡ w.sets)
  unfolding handle_route handle_api send register
  frame_at get_liveness w = (λ n. refl, λ n. refl)
  frame_at no_route w = (λ n. refl, λ n. refl)
  frame_at r w = (λ n. ground arith, λ n. ground arith)

  -- A request without "Bearer " and the API token in its Authorization header changes nothing. All that
  -- it learns is that the server is alive, that a path is unknown, or that it is unauthorized; in
  -- particular the answer is the same for all queues and tag sets.
  pub handle_unauthorized :
      (w : World)
      → text_eq req.authorization (codes "Bearer " ++ api.token) ≡ false
      → ((handle api now req w).0 ≡ w)
        × Public api req (handle api now req w).1
        × ((w' : World) → (handle api now req w').1 ≡ (handle api now req w).1)
  unfolding handle
  handle_unauthorized w h = denied_at (route req) refl w h

  -- Only a POST of messages changes the todo queue, and only a POST of tag sets changes the tag sets.
  pub handle_frame :
      (w : World)
      → (route req ≢ post_message → (handle api now req w).0.queue ≡ w.queue)
        × (route req ≢ post_tag_set → (handle api now req w).0.sets ≡ w.sets)
  unfolding handle
  handle_frame w = frame_at (route req) w
