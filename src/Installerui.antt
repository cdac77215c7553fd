-- ===== src/Installerui.antt =====
-- Package agent/internal/installerui: the dialogs of the installers. Screens are the wizard's
-- (wizard_windows.go), Dialog and Packing the calls on Windows below it (taskdialog_windows.go).
pub mod Packing
pub mod Dialog
pub mod Screens
