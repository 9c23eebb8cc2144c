-- ===== src/Pipeline/Reached.antt =====
-- What holds in every state that the services reach together, whatever else happens.
use metro_backend.Payments.{Event}
use metro_backend.Prelude.{List}
use metro_backend.Webhook.Deliveries as Deliveries
use metro_backend.Pipeline.{Line, Setting}
use metro_backend.Pipeline.Backed.{Backed}

abbrev setting : Line → List Event → Setting
setting l others = record { line = l; elsewhere = others }
