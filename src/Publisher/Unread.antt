-- ===== src/Publisher/Unread.antt =====
-- internal/controller/publisher.go: a pass of Reconcile that cannot read its inputs.
use pangolin_gateway.Prelude.{string_eq}
use pangolin_gateway.Api.{name_eq}
use pangolin_gateway.Publisher.{Publisher}
