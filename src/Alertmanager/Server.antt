-- ===== src/Alertmanager/Server.antt =====
-- What the client relies on of the Alertmanager of Mimir, for the tenant of one client: a
-- configuration that is posted is the one that it holds, and after a deletion it holds none.
use mimir_operator.Base.{◌≡◌, ◌↔◌, sym, ap, String, [], none, some}
use mimir_operator.Exec.{ok, pure, continue-eq-ok}
use mimir_operator.Client.{Response, MimirClient, do_request}
use mimir_operator.Ruler.{
  ConfigCompat, alertmanager_api_path, create_alertmanager_config, delete_alertmanager_config,
}
use mimir_operator.Cluster.{Cluster}
use mimir_operator.Server.{Answered}
use mimir_operator.Server.Calls.{answered}

module _ (C : Cluster) (r : MimirClient) where
  open C use {World, send, net, yaml}

  pub record AlertServer : Type 1 where
    -- The configuration that the Alertmanager holds for the tenant, if there is one.
    pub Holds : World → ConfigCompat → Type 0
    pub posted :
        (payload : String) (c : ConfigCompat) (w w' : World) (resp : Response)
        → yaml.marshal_config c ≡ ok payload
        → Answered C r alertmanager_api_path "POST" (some payload) w w' resp
        → (x : ConfigCompat) → Holds w' x ↔ (x ≡ c)
    pub deleted :
        (w w' : World) (resp : Response)
        → Answered C r alertmanager_api_path "DELETE" none w w' resp
        → (x : ConfigCompat) → ¬ Holds w' x

  abbrev pub config_of : String → ConfigCompat
  config_of cfg = record { template_files = []; alertmanager_config = cfg }

  module _ (S : AlertServer) where
    open S use {Holds}

    pub create_alertmanager_config-Holds :
        (cfg : String) (w w' : World)
        → create_alertmanager_config net yaml send r cfg [] w ≡ (ok tt, w')
        → (x : ConfigCompat) → Holds w' x ↔ (x ≡ config_of cfg)
    unfolding create_alertmanager_config
    create_alertmanager_config-Holds cfg w w' h =
        let (payload, w₁, printed, h₁) =
          continue-eq-ok (yaml.marshal_config (config_of cfg), w) _ h in
        let (resp, w₂, ran, done) =
          continue-eq-ok (do_request net send r alertmanager_api_path "POST" (some payload) w₁)
            (λ _. pure tt) h₁ in
        let before : w₁ ≡ w = sym (ap (λ p. p.1) printed) in
        let after : w₂ ≡ w' = ap (λ p. p.1) done in
        S.posted payload (config_of cfg) w w' resp (ap (λ p. p.0) printed) (
          answered C r alertmanager_api_path "POST" (some payload) w w' resp
            (rw (before, after) at ran))

    pub delete_alertmanager_config-Holds :
        (w w' : World)
        → delete_alertmanager_config net yaml send r w ≡ (ok tt, w')
        → (x : ConfigCompat) → ¬ Holds w' x
    unfolding delete_alertmanager_config
    delete_alertmanager_config-Holds w w' h =
        let (resp, w₁, ran, done) =
          continue-eq-ok (do_request net send r alertmanager_api_path "DELETE" none w)
            (λ _. pure tt) h in
        let same : w₁ ≡ w' = ap (λ p. p.1) done in
        S.deleted w w' resp
          (answered C r alertmanager_api_path "DELETE" none w w' resp (rw same at ran))
