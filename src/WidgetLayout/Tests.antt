-- ===== src/WidgetLayout/Tests.antt =====
-- The layout of concrete widgets.
use glanceus.Prelude.{◌≡◌, refl}
use glanceus.WidgetLayout.{content, meta_of, layout, inherited_property, get_widget_layout_meta}

pie_layout : get_widget_layout_meta "Chart.Pie" ≡ layout (meta_of content 4 1)
unfolding get_widget_layout_meta
pie_layout = refl

value_of_layout : get_widget_layout_meta "valueOf" ≡ inherited_property "valueOf"
unfolding get_widget_layout_meta
value_of_layout = refl
