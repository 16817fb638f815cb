-- ===== src/Defaults/Components/Effective.antt =====
-- The value of each flag of a component.
use aks_engine.Common.{◌≡◌, ap, ◌∙◌, String, Option, none, some, lookup, string_eq}
use aks_engine.Defaults.Overlay.{Flags, or_else, fill_missing, lookup-fill_missing, lookup-override}
use aks_engine.Defaults.Components.{
  Settings, or_empty, static_scheduler_config, default_scheduler_config, set_scheduler_config,
  static_cloud_controller_manager_config, default_cloud_controller_manager_config,
  set_cloud_controller_manager_config,
}

-- The program's own value, else the user's, else the default.
abbrev pub effective : Flags → Option Flags → Flags → String → Option String
effective enforced user defaults k =
    or_else (lookup k enforced) (or_else (lookup k (or_empty user)) (lookup k defaults))

scheduler_effective :
    (user : Option Flags) (k : String)
    → lookup k (set_scheduler_config user)
      ≡ effective static_scheduler_config user default_scheduler_config k
unfolding set_scheduler_config
scheduler_effective user k =
    lookup-override k static_scheduler_config
      (fill_missing default_scheduler_config (or_empty user))
    ∙ ap (or_else (lookup k static_scheduler_config))
        (lookup-fill_missing k default_scheduler_config (or_empty user))

cloud_controller_manager_effective :
    (o : Settings) (user : Option Flags) (k : String)
    → lookup k (set_cloud_controller_manager_config o user)
      ≡ effective
          (static_cloud_controller_manager_config o)
          user
          default_cloud_controller_manager_config
          k
unfolding set_cloud_controller_manager_config
cloud_controller_manager_effective o none k =
    lookup-override k (static_cloud_controller_manager_config o)
      default_cloud_controller_manager_config
cloud_controller_manager_effective o (some user) k =
    lookup-override k (static_cloud_controller_manager_config o)
      (fill_missing default_cloud_controller_manager_config user)
    ∙ ap (or_else (lookup k (static_cloud_controller_manager_config o)))
        (lookup-fill_missing k default_cloud_controller_manager_config user)

-- Each flag of the scheduler and of the cloud controller manager has the program's own value if there
-- is one, else the value that the user gave, else the default, and there are no other flags.
pub lookup-effective :
    (o : Settings) (scheduler manager : Option Flags) (k : String)
    → (lookup k (set_scheduler_config scheduler)
        ≡ effective static_scheduler_config scheduler default_scheduler_config k)
      × (lookup k (set_cloud_controller_manager_config o manager)
          ≡ effective
              (static_cloud_controller_manager_config o)
              manager
              default_cloud_controller_manager_config
              k)
lookup-effective o scheduler manager k =
    (scheduler_effective scheduler k, cloud_controller_manager_effective o manager k)
