-- ===== src/Picker.antt =====
-- src/mattermost/model-picker.ts: the interactive model picker. Context has the states of the picker
-- and what a button carries, Pages the pages of a list, Parts the
-- commands and the buttons, Current the current model, Views and Runtime the views;
-- Buttons is about what comes back from the buttons of a view, and Paging about the pages.
pub mod Context
pub mod Pages
pub mod Parts
pub mod Current
pub mod Views
pub mod Runtime
pub mod Buttons
pub mod Paging
mod Tests
