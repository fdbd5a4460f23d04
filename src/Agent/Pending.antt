-- ===== src/Agent/Pending.antt =====
-- The agent's pending requests with one more at their end.
use protogate.Agent.Requests.{
  Http2Request, new_request, Pending, find_request, erase_request, update_request, on_request,
  hand_over,
}
use protogate.Base.{ℕ, ◌≡◌, refl, arith, [], ◌∷◌, ◌++◌, none, some}

-- The pending requests p, without one for this stream.
module _ (id : ℕ) where
  pub update-new :
      (f : Http2Request → Http2Request) (p : Pending)
      → find_request id p ≡ none
      → update_request id f p ≡ p ++ (id, f new_request) ∷ []
  unfolding update_request find_request
  update-new f [] e = refl
  update-new f ((j, r) ∷ p) e = ground (arith, e, update-new f p)

  pub update-last :
      (f : Http2Request → Http2Request) (p : Pending) (r : Http2Request)
      → find_request id p ≡ none
      → update_request id f (p ++ (id, r) ∷ []) ≡ p ++ (id, f r) ∷ []
  unfolding update_request find_request
  update-last f [] r e = ground arith
  update-last f ((j, q) ∷ p) r e = ground (arith, e, update-last f p r)

  find-last :
      (p : Pending) (r : Http2Request)
      → find_request id p ≡ none
      → find_request id (p ++ (id, r) ∷ []) ≡ some r
  unfolding find_request
  find-last [] r e = ground arith
  find-last ((j, q) ∷ p) r e = ground (arith, e, find-last p r)

  erase-last :
      (p : Pending) (r : Http2Request)
      → find_request id p ≡ none
      → erase_request id (p ++ (id, r) ∷ []) ≡ p
  unfolding find_request erase_request
  erase-last [] r e = ground arith
  erase-last ((j, q) ∷ p) r e = ground (arith, e, erase-last p r)

  pub hand_over-last :
      (p : Pending) (r : Http2Request)
      → find_request id p ≡ none
      → hand_over id (p ++ (id, r) ∷ []) ≡ (p, on_request r ∷ [])
  unfolding hand_over
  hand_over-last p r e = ground (arith, find-last p r e, erase-last p r e)
