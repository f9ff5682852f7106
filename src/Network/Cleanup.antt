-- ===== src/Network/Cleanup.antt =====
-- What the cleanup may remove.
use kata_tee_runner.Prelude.{◌≡◌, String, Bool, true, Option, List, [], ◌∷◌, ◌++◌}
use kata_tee_runner.Prelude.Text.{strip}
use kata_tee_runner.Gateway.Status.{words}
use kata_tee_runner.Network.Docker.{
  Process, Args, Calls, Run, ◌>>=◌, ◌>>◌, return, succeeded, is_agent_container, is_agent_volume,
  rm_container, rm_volume,
}
use kata_tee_runner.Network.Chains.{
  docker, best_effort, remove_each, remove_volumes, remove_containers,
  cleanup_stale_agent_containers,
}
use kata_tee_runner.Network.Added.{Are, Adds, return-Adds, >>=-Adds, if-Adds, docker-Adds}

-- The commands of the cleanup: the two lists, and the removal of what has an agent's name.
pub data IsCleanup : Args → Type 0 where
  lists_containers : IsCleanup ("ps" ∷ "-a" ∷ "--format" ∷ "{{.Names}}" ∷ [])
  lists_volumes : IsCleanup ("volume" ∷ "ls" ∷ "--format" ∷ "{{.Name}}" ∷ [])
  removes_container :
      (name : String) → is_agent_container name ≡ true → IsCleanup ("rm" ∷ "-f" ∷ name ∷ [])
  removes_volume :
      (name : String) → is_agent_volume name ≡ true → IsCleanup ("volume" ∷ "rm" ∷ "-f" ∷ name ∷ [])

abbrev pub AreCleanup : Calls → Type 0
AreCleanup = Are IsCleanup

abbrev Cleans : {A : Type 0} → Run A → Type 0
Cleans = Adds IsCleanup

module _ (answer : Calls → Args → Option Process) (host : String) where
  remove_each-Cleans :
      (pattern : String → Bool) (args : String → Args) (names : List String)
      → ((name : String) → pattern name ≡ true → IsCleanup (args name))
      → Cleans (remove_each answer host pattern args names)
  unfolding remove_each best_effort
  remove_each-Cleans pattern args [] good = return-Adds IsCleanup tt
  remove_each-Cleans pattern args (name ∷ names) good =
      let rest = remove_each-Cleans pattern args names good in
      if-Adds IsCleanup (pattern (strip name)) _ _
        (λ h.
          >>=-Adds IsCleanup (best_effort answer host (args (strip name)))
            (λ done. remove_each answer host pattern args names)
            (>>=-Adds IsCleanup (docker answer host (args (strip name))) (λ p. return tt)
              (docker-Adds IsCleanup answer host (args (strip name)) (good (strip name) h))
              (λ p. return-Adds IsCleanup tt))
            (λ done. rest))
        rest

  remove_volumes-Cleans : (volumes : Process) → Cleans (remove_volumes answer host volumes)
  unfolding remove_volumes
  remove_volumes-Cleans volumes =
      if-Adds IsCleanup (succeeded volumes)
        (remove_each answer host is_agent_volume rm_volume (words volumes.stdout)) (return tt)
        (λ h. remove_each-Cleans is_agent_volume rm_volume (words volumes.stdout) removes_volume)
        (return-Adds IsCleanup tt)

  remove_containers-Cleans : (listed : Process) → Cleans (remove_containers answer host listed)
  unfolding remove_containers
  remove_containers-Cleans listed =
      let list = docker answer host ("volume" ∷ "ls" ∷ "--format" ∷ "{{.Name}}" ∷ []) in
      let remove = remove_each answer host is_agent_container rm_container (words listed.stdout) in
      if-Adds IsCleanup (succeeded listed) (remove >> (list >>= remove_volumes answer host))
        (return tt)
        (λ h.
          >>=-Adds IsCleanup remove (λ done. list >>= remove_volumes answer host)
            (remove_each-Cleans is_agent_container rm_container (words listed.stdout)
              removes_container)
            (λ done.
              >>=-Adds IsCleanup list (remove_volumes answer host)
                (docker-Adds IsCleanup answer host _ lists_volumes) remove_volumes-Cleans))
        (return-Adds IsCleanup tt)

  -- All that the cleanup of stale containers does is to list containers and volumes and to remove
  -- those whose names are an agent's, whatever docker answers.
  pub cleanup_stale_agent_containers-AreCleanup :
      (calls : Calls)
      → (added : Calls) × ((cleanup_stale_agent_containers answer host calls).1 ≡ added ++ calls)
        × AreCleanup added
  unfolding cleanup_stale_agent_containers
  cleanup_stale_agent_containers-AreCleanup =
      >>=-Adds IsCleanup (docker answer host ("ps" ∷ "-a" ∷ "--format" ∷ "{{.Names}}" ∷ []))
        (remove_containers answer host)
        (docker-Adds IsCleanup answer host ("ps" ∷ "-a" ∷ "--format" ∷ "{{.Names}}" ∷ [])
          lists_containers)
        remove_containers-Cleans
