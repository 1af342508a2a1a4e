-- ===== src/Lib.antt =====
-- A model of pangolin-gateway, the controller that publishes Gateway API routes, PrivateResources and
-- ResourcePolicies to a Pangolin instance. One pass of the controller lists the whole state of the
-- cluster, resolves the credentials and CAs that routes ask for, renders everything into one
-- blueprint, applies it, deletes what no object claims any more, and writes the statuses.
--
-- The parts and the code they are about (paths from the repository's root):
-- - Collisions: resolveCollisions of internal/gateway/render.go. Its maps of owners, the two sections
--   of the blueprint and the outcomes are one record, and a round of the loop is a function on it.
--   Collisions.Reference compares every candidate with the winners before it.
-- - Parents, Routes, Routes.Entries, Render: the rest of internal/gateway/render.go. RenderAll's loops
--   are recursions on the lists of objects; the result of one round is a value of Judged.
-- - Annotation, Annotations, Protection, Healthcheck, Pincode, Rules, Emails: the annotations of a
--   route (internal/gateway/visibility.go, basicauth.go, mtls.go, healthcheck.go, pincode.go, rules.go,
--   emailwhitelist.go). An annotation map is an association list, an error is its message.
-- - PrivateResources, PrivateGrants, Ports, Patterns, Network: internal/gateway/privateresource.go.
--   Regex matches the anchored patterns by derivatives; Network reads IP addresses and CIDR blocks
--   the way the package net does. PrivateResources.Shape, Modes and Published say what an entry of each
--   mode has; Rules.Accepted has the grammar of the access rules.
-- - Policies, Policies.Translate: internal/gateway/policy.go.
-- - Status: internal/gateway/status.go. meta.SetStatusCondition is a parameter.
--   Status.Settled and Status.Again follow its loops through a second run, Publisher.Quiet the writers
--   of the statuses in internal/controller/publisher.go.
-- - Certificates, Secrets: what internal/controller/basicauth.go and mtls.go resolve. The client of the
--   cluster, the random source, and the PEM and X.509 decoders are parameters.
-- - Publisher, Publisher.Statuses, Publisher.Verify, Publisher.Reconcile, Prune:
--   internal/controller/publisher.go, metrics.go and the verification of mtls.go. The cluster and
--   Pangolin are one world that each call may change; calls are effects that end in a value or an
--   error (Effect). What the metrics count is a list of events beside the world.
-- - Effect.Keeping, Secrets.Keeping, Publisher.Statuses.Keeping, Publisher.Keeping, Publisher.Failed,
--   Publisher.Unread, Publisher.Whole, Client.Quiet: what the calls of a pass keep, followed through the
--   handlers.
-- - Client, Client.Calls, Listing: internal/pangolin/client.go. Client has the configuration, the errors
--   and the request behind every call; Client.Calls has the calls, and the client as the reconciler's
--   Pangolin; Listing has the loops over pages. net/http, net/url, and the texts of encoding/json and
--   encoding/base64 are parameters.
-- - Document, Json: the JSON document of a blueprint, by the tags of the structs of
--   internal/pangolin/blueprint.go. Document.Reading reads it back.
-- - Publisher.Confirm, Publisher.Wanted, Publisher.Enforced: what verifyMTLS makes of the verdicts;
--   Publisher.Succeeds: what a pass that reports success has done.
-- - Program: cmd/main.go and internal/manager/options.go, from the parsed flags to the reconciler.
-- - DryRun: internal/pangolin/dryrun.go.
-- - Api, Blueprint, Inputs, Verdict: the records of the Gateway API, of api/v1alpha1, of
--   internal/pangolin/blueprint.go and of the renderer.
-- - Prelude, Text, Map, Order: shared helpers. Text holds the functions of the packages strings and
--   strconv that the source calls; case mapping is that of ASCII. Map is a Go map as an association
--   list with one entry for a key. Order holds stable sorting by a comparison.
--
-- Numbers: ports, times and identifiers are natural numbers; strconv.Atoi keeps the range of int64. The
-- loops over pages and over PEM blocks run on fuel. The fuel of a listing is a number of pages that a
-- listing of bounded size never uses up; that of a CA value is one more than its length in bytes, which
-- is enough where the decoder always consumes something.
--
-- Not modelled: the transport below net/http, the texts of JSON and YAML (the decoders are parameters),
-- logging, watch registration, the parsing of flags and the runtime of the manager, generated code, the
-- fake Pangolin and the tests, charts and manifests.
pub mod Prelude
pub mod Text
pub mod Order
pub mod Map
pub mod Api
pub mod Blueprint
pub mod Verdict
pub mod Annotation
pub mod Annotations
pub mod Regex
pub mod Patterns
pub mod Network
pub mod Rules
pub mod Emails
pub mod Healthcheck
pub mod Pincode
pub mod Client
pub mod Collisions
pub mod Prune
pub mod Listing
pub mod Inputs
pub mod Document
pub mod Json
pub mod Ports
pub mod PrivateGrants
pub mod Program
pub mod Protection
pub mod Policies
pub mod PrivateResources
pub mod Parents
pub mod Routes
pub mod Render
pub mod Effect
pub mod Status
pub mod Certificates
pub mod Secrets
pub mod Publisher
pub mod DryRun
mod Examples
