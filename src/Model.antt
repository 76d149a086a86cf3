-- ===== src/Model.antt =====
-- The messages of the program: model/model.proto (generated into model/model.pb.go) and the
-- helpers written over them. A stage ID, which the source prints with strconv.Itoa, is kept as
-- the number that it prints.
pub mod Datum
pub mod Event
pub mod Command
pub mod Stream
