-- ===== src/Workflow/Ports/Laws.antt =====
-- What a fresh identifier and a required dependency have found.
use webmcp_backend.Common.{◌≡◌, String, Option, some, none, arith, ok}
use webmcp_backend.Common.Io.Laws.{Returns}
use webmcp_backend.Domain.Core.{Ident, new_id}
use webmcp_backend.Workflow.Ports.{Random, fresh_id, required}

pub required-Returns :
    {W A : Type 0} (complaint : String) (o : Option A) (w w' : W) (a : A)
    → Returns (required complaint o) w a w'
    → (o ≡ some a) × (w' ≡ w)
unfolding required
required-Returns complaint none w w' a h = cc
required-Returns complaint (some b) w w' a h = (ground arith, ground arith)

pub fresh_id-Returns :
    {W : Type 0} (random : Random W) (prefix : String) (w w' : W) (id : Ident)
    → Returns (fresh_id random prefix) w id w'
    → (new_id prefix (random w).0 ≡ ok id) × (w' ≡ (random w).1)
unfolding fresh_id
fresh_id-Returns random prefix w w' id h = (ground arith, ground arith)
