-- ===== src/Examples/Metrics.antt =====
-- The gauges of a sealed secret that is unsealed and then deleted.
use sealed_secrets.Base.{◌≡◌, [], ◌∷◌, none, some, if◌then◌else◌}
use sealed_secrets.Sealed.{SealedSecret, condition_false}
use sealed_secrets.Controller.{GaugeKey}
use sealed_secrets.Controller.Conditions.{observe_condition, unregister_condition, conditions_of}
use sealed_secrets.Controller.Gauges.{
  Gauges, value_of, has_gauge, last_status, observe_condition_lem,
}
use sealed_secrets.Examples.Sealing.{a_sealed_secret}
use sealed_secrets.Examples.Cluster.{healthy}

abbrev healthy_secret : SealedSecret
healthy_secret = record a_sealed_secret { status = some healthy }

abbrev its_gauge : GaugeKey
its_gauge = record {
  gauge_namespace = "n";
  gauge_name = "s";
  gauge_condition = "Synced";
  gauge_instance = "";
}

abbrev old_gauges : Gauges
old_gauges =
    (record its_gauge { gauge_name = "r" }, condition_false) ∷ (its_gauge, condition_false) ∷ []

observe_condition_lem_example :
    (value_of its_gauge (observe_condition healthy_secret old_gauges)
      ≡ last_status healthy_secret its_gauge
          (conditions_of healthy_secret)
          (value_of its_gauge old_gauges))
    × (value_of its_gauge
          (unregister_condition healthy_secret (observe_condition healthy_secret old_gauges))
        ≡ (if has_gauge healthy_secret its_gauge (conditions_of healthy_secret)
            then none
            else value_of its_gauge old_gauges))
observe_condition_lem_example = observe_condition_lem healthy_secret its_gauge old_gauges
