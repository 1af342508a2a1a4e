-- ===== src/DryRun.antt =====
-- internal/pangolin/dryrun.go: the decorator under which every write of Pangolin is logged instead
-- of performed. The log is not part of the model.
pub mod Inert
use pangolin_gateway.Prelude.{none, []}
use pangolin_gateway.Effect.{pure}
use pangolin_gateway.Prune.{SectionApi}
use pangolin_gateway.Publisher.{PangolinApi}

-- The listing passes through, the deletion does nothing.
abbrev pub dry_section : {W : Type 0} → SectionApi W → SectionApi W
dry_section api = record { list = api.list; del = λ id w. (none, w) }

-- DryRun
unfoldable pub dry_run : {W : Type 0} → PangolinApi W → PangolinApi W
dry_run inner = record inner {
  apply_blueprint = λ bp. pure tt;
  public_section = dry_section inner.public_section;
  private_section = dry_section inner.private_section;
  policy_section = dry_section inner.policy_section;
  list_certificates = λ id. pure [];
}
