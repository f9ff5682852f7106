-- ===== src/Network/Closed.antt =====
-- An agent is run on a sealed network alone.
use kata_tee_runner.Prelude.{
  affirmed, ◌≡◌, ◌⊎◌, refl, sym, ap, if◌then◌else◌, ◌∙◌, arith, String, true, false, not, ◌&&◌,
  Option, [], ◌∷◌, ◌==◌, string_eq, list_eq, nat_eq, Result, ok, raise,
}
use kata_tee_runner.Prelude.Text.{codes, strip}
use kata_tee_runner.Gateway.Headers.{lower}
use kata_tee_runner.Network.Docker.{
  Process, Args, Calls, Failure, not_inspected, not_internal, not_created, not_connected, no_image,
  noted, ◌>>◌, fail_if, succeeded, docker_already_exists, internal_args, create_args, connect_args,
  image_args, probe_args, inf_net,
}
use kata_tee_runner.Network.Chains.{
  docker, best_effort, remove_each, network_endpoint_ids, cleanup_stale_agent_containers,
  require_internal_network, reset_inference_network, verify_reachable, ensure_once,
}
use kata_tee_runner.Network.Outcomes.{
  resume-eq-ok, fail_if-eq-ok, agreed, given, either, docker-eq-ok,
}

module _ (answer : Calls → Args → Option Process) (host : String) where
  -- The network has been made, found internal, joined and probed, in this order, and nothing was done since.
  pub record IsSealedOff (url : String) (after : Calls) : Type 0 where
    pub earlier : Calls
    pub create : Process
    pub internal : Process
    pub connect : Process
    pub image : Process
    pub probe : Process
    pub are_last :
        after
        ≡ (probe_args (strip image.stdout) url, probe)
          ∷ (image_args host, image)
          ∷ (connect_args host, connect)
          ∷ (internal_args, internal)
          ∷ (create_args, create)
          ∷ earlier
    pub is_created : (succeeded create ≡ true) ⊎ (docker_already_exists create ≡ true)
    pub is_inspected : succeeded internal ≡ true
    pub is_internal : lower (strip internal.stdout) ≡ codes "true"
    pub is_connected : (succeeded connect ≡ true) ⊎ (docker_already_exists connect ≡ true)
    pub is_reachable : succeeded probe ≡ true

  require_internal_network-eq-ok :
      (calls after : Calls)
      → require_internal_network answer host calls ≡ (ok tt, after)
      → (p : Process) × ((internal_args, p) ∷ calls ≡ after)
        × (succeeded p ≡ true)
        × (lower (strip p.stdout) ≡ codes "true")
  unfolding require_internal_network
  require_internal_network-eq-ok calls after h =
      let (p, c₁, d, h₁) = resume-eq-ok _ (docker answer host internal_args calls) tt after h in
      let (_, c₂, f, h₂) =
        resume-eq-ok _ (fail_if (not (succeeded p)) not_inspected c₁) tt after h₁ in
      let (good, same₁) = fail_if-eq-ok (not (succeeded p)) not_inspected c₁ c₂ f in
      let (internal, same₂) =
        fail_if-eq-ok (not (lower (strip p.stdout) == codes "true")) not_internal c₂ after h₂ in
      (
        p,
        docker-eq-ok answer host internal_args calls c₁ p d ∙ (same₁ ∙ same₂),
        affirmed (succeeded p) good,
        agreed (lower (strip p.stdout)) (codes "true") internal,
      )

  verify_reachable-eq-ok :
      (url : String) (failure : Failure) (calls after : Calls)
      → verify_reachable answer host url failure calls ≡ (ok tt, after)
      → (image : Process) × (probe : Process) × ((probe_args (strip image.stdout) url, probe)
            ∷ (image_args host, image)
            ∷ calls
          ≡ after)
        × (succeeded probe ≡ true)
  unfolding verify_reachable
  verify_reachable-eq-ok url failure calls after h =
      let (image, c₁, d, h₁) =
        resume-eq-ok _ (docker answer host (image_args host) calls) tt after h in
      let shown = if succeeded image then strip image.stdout else "" in
      let (_, c₂, f, h₂) = resume-eq-ok _ (fail_if (shown == "") no_image c₁) tt after h₁ in
      let (found, s₁) = fail_if-eq-ok (shown == "") no_image c₁ c₂ f in
      let (probe, c₃, d₂, h₃) =
        resume-eq-ok _ (docker answer host (probe_args shown url) c₂) tt after h₂ in
      let (reached, s₂) = fail_if-eq-ok (not (succeeded probe)) failure c₃ after h₃ in
      let first : (image_args host, image) ∷ calls ≡ c₂ =
        docker-eq-ok answer host (image_args host) calls c₁ image d ∙ s₁ in
      let second : (probe_args shown url, probe) ∷ c₂ ≡ after =
        docker-eq-ok answer host (probe_args shown url) c₂ c₃ probe d₂ ∙ s₂ in
      let is : shown ≡ strip image.stdout = given (succeeded image) (strip image.stdout) found in
      (
        image,
        probe,
        ap (λ x. (probe_args x url, probe) ∷ (image_args host, image) ∷ calls) (sym is)
            ∙ (ap (λ c. (probe_args shown url, probe) ∷ c) first ∙ second),
        affirmed (succeeded probe) reached,
      )

  reset_inference_network-eq-ok :
      (calls after : Calls)
      → reset_inference_network answer host calls ≡ (ok tt, after)
      → (earlier : Calls) × (create : Process) × (internal : Process) × (connect : Process) × ((
        connect_args host,
        connect,
      )
            ∷ (internal_args, internal)
            ∷ (create_args, create)
            ∷ earlier
          ≡ after)
        × ((succeeded create ≡ true) ⊎ (docker_already_exists create ≡ true))
        × (succeeded internal ≡ true)
        × (lower (strip internal.stdout) ≡ codes "true")
        × ((succeeded connect ≡ true) ⊎ (docker_already_exists connect ≡ true))
  unfolding reset_inference_network
  reset_inference_network-eq-ok calls after h =
      let (_, c₁, _, h₁) =
        resume-eq-ok _ (cleanup_stale_agent_containers answer host calls) tt after h in
      let (endpoints, c₂, _, h₂) =
        resume-eq-ok _ (network_endpoint_ids answer host c₁) tt after h₁ in
      let (_, c₃, _, h₃) =
        resume-eq-ok _
          (remove_each answer host (λ id. true)
            (λ id. "network" ∷ "disconnect" ∷ "-f" ∷ inf_net ∷ id ∷ []) endpoints c₂)
          tt after h₂ in
      let (_, c₄, _, h₄) =
        resume-eq-ok _ (best_effort answer host ("network" ∷ "rm" ∷ inf_net ∷ []) c₃) tt after h₃ in
      let (create, c₅, d₁, h₅) = resume-eq-ok _ (docker answer host create_args c₄) tt after h₄ in
      let (_, c₆, f₁, h₆) =
        resume-eq-ok _
          (fail_if (not (succeeded create) && not (docker_already_exists create)) not_created c₅) tt
          after h₅ in
      let (made, s₁) =
        fail_if-eq-ok (not (succeeded create) && not (docker_already_exists create)) not_created c₅
          c₆ f₁ in
      let (_, c₇, q, h₇) = resume-eq-ok _ (require_internal_network answer host c₆) tt after h₆ in
      let (internal, s₂, inspected, is) = require_internal_network-eq-ok c₆ c₇ q in
      let (connect, c₈, d₂, h₈) =
        resume-eq-ok _ (docker answer host (connect_args host) c₇) tt after h₇ in
      let (joined, s₃) =
        fail_if-eq-ok (not (succeeded connect) && not (docker_already_exists connect)) not_connected
          c₈ after h₈ in
      let made_calls : (create_args, create) ∷ c₄ ≡ c₆ =
        docker-eq-ok answer host create_args c₄ c₅ create d₁ ∙ s₁ in
      let joined_calls : (connect_args host, connect) ∷ c₇ ≡ after =
        docker-eq-ok answer host (connect_args host) c₇ c₈ connect d₂ ∙ s₃ in
      (
        c₄,
        create,
        internal,
        connect,
        ap (λ c. (connect_args host, connect) ∷ (internal_args, internal) ∷ c) made_calls
            ∙ (ap (λ c. (connect_args host, connect) ∷ c) s₂ ∙ joined_calls),
        either (succeeded create) (docker_already_exists create) made,
        inspected,
        is,
        either (succeeded connect) (docker_already_exists connect) joined,
      )

  ensured :
      (url : String) (failure : Failure) (r : Result Failure (Unit {0}) × Calls)
      → (noted r).1 ≡ true
      → r ≡ (ok tt, (noted r).0.1)
  ensured url failure (raise why, after) h = absurd (ground (arith, h))
  ensured url failure (ok done, after) h = refl

  -- Where the flag of readiness is up after `ensure_inference_network_once`, or its sister for the
  -- broker, and was not before, the room's last five commands are these, in order: it made the
  -- network, found it internal, joined it, looked up its own image, and reached the health URL from
  -- a container on that network. The network was inspected and reached with success; it, and the
  -- room's endpoint on it, may have been there before.
  pub ensure_once-IsSealedOff :
      (url : String) (failure : Failure) (calls : Calls)
      → (ensure_once answer host url failure false calls).1 ≡ true
      → IsSealedOff url (ensure_once answer host url failure false calls).0.1
  unfolding ensure_once
  ensure_once-IsSealedOff url failure calls h =
      let done =
        ensured url failure
          ((reset_inference_network answer host >> verify_reachable answer host url failure) calls)
          h in
      let after = (ensure_once answer host url failure false calls).0.1 in
      let (_, c₁, r, h₁) =
        resume-eq-ok _ (reset_inference_network answer host calls) tt after done in
      let (earlier, create, internal, connect, sealed, made, inspected, is, joined) =
        reset_inference_network-eq-ok calls c₁ r in
      let (image, probe, probed, reached) = verify_reachable-eq-ok url failure c₁ after h₁ in
      record {
        earlier = earlier;
        create = create;
        internal = internal;
        connect = connect;
        image = image;
        probe = probe;
        are_last = sym (
            ap (λ c. (probe_args (strip image.stdout) url, probe) ∷ (image_args host, image) ∷ c)
              sealed
            ∙ probed);
        is_created = made;
        is_inspected = inspected;
        is_internal = is;
        is_connected = joined;
        is_reachable = reached;
      }
