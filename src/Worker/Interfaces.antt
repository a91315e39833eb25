-- ===== src/Worker/Interfaces.antt =====
-- What the worker is generic over: `DocumentRenderer` of crates/renderer-api/src/types.rs,
-- `RendererFactory` of crates/renderer-worker/src/worker.rs and `PageBufferStore` of shm.rs.
-- An object is a value, and a method with `&mut self` returns the new value beside its result.
use doc_bunker.Prelude.{ℕ, List, Result, Text}
use doc_bunker.RendererApi.Error.{RenderError}
use doc_bunker.RendererApi.Types.{DocumentInfo, RenderOptions, RenderedPage}

pub record DocumentRenderer (R : Type 0) : Type 0 where
  pub info : R → Result RenderError DocumentInfo
  pub render_page : ℕ → RenderOptions → R → Result RenderError RenderedPage × R

pub record RendererFactory (F R : Type 0) : Type 0 where
  pub create : List ℕ → F → Result RenderError R × F

pub record PageBufferStore (S : Type 0) : Type 0 where
  pub store : List ℕ → S → Result Text (Unit {0}) × S
  pub name : S → Text
  pub capacity : S → ℕ
